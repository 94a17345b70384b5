-- ===== src/Daemon/Protocol.antt =====
-- What a command may change, and what it takes to be answered.
use proxchunk.Prelude.{
  if_not, none, String, ◌≡◌, refl, sym, ap, subst, ◌≢◌, ◌↔◌, ◌⊎◌, inl, inr, Bool, true, false, ◌&&◌,
  some, List, [], ◌∷◌, arith, Bool-cases, length, is_empty, Bytes, codes, bytes_eq_iff,
}
use proxchunk.Ipc.{ipc_split}
use proxchunk.Engine.Rows.{Floats}
use proxchunk.Engine.{Engine}
use proxchunk.Daemon.{
  Formats, Conn, ok, close, Outside, Handled, is_word, greet, handle_tokens, handle_line,
}

-- The connection with which a client starts its session.
abbrev hello_1 : List Bytes
hello_1 = codes "HELLO" ∷ codes "1" ∷ []

module _ {D : Type 0} where
  -- The engine and the leases of the connection are as they were.
  abbrev ChangesNothing : Conn → Engine D → Handled D → Type 0
  ChangesNothing c e r = (r.engine ≡ e) × (r.conn.held ≡ c.held)

  abbrev pub Greets : List Bytes → Conn → Handled D → Type 0
  Greets tok c r =
      ((tok ≡ []) × (r.result ≡ ok) × (r.reply ≡ none) × (r.conn ≡ c))
      ⊎ ((tok ≡ hello_1) × (r.result ≡ ok) × (r.conn ≡ record c { greeted = true }))
      ⊎ ((tok ≢ hello_1)
          × (is_empty tok ≡ false)
          × (r.result ≡ close)
          × (r.reply ≡ some (codes "ERR protocol"))
          × (r.conn ≡ c))

is_word_iff : (t : Bytes) (w : String) → (is_word t w ≡ true) ↔ (t ≡ codes w)
is_word_iff t w = bytes_eq_iff t (codes w)

not_both :
    (hello version : Bytes)
    → (is_word hello "HELLO" && is_word version "1") ≡ false
    → hello ∷ version ∷ [] ≢ hello_1
not_both hello version other h =
    let first : hello ≡ codes "HELLO" = cc h in
    let second : version ≡ codes "1" = cc h in
    absurd (
      ground
        (arith, other, (is_word_iff hello "HELLO").1 first, (is_word_iff version "1").1 second))

module _ {D : Type 0} ⦃F : Floats D⦄ where
  greet-Greets :
      (cmd : Bytes) (args : List Bytes) (c : Conn) (e : Engine D)
      → ((greet (cmd ∷ args) c e).engine ≡ e) × Greets (cmd ∷ args) c (greet (cmd ∷ args) c e)
  unfolding greet
  greet-Greets hello [] c e =
      (refl, inr (inr ((λ h. absurd (ground (arith, ap length h))), refl, refl, refl, refl)))
  greet-Greets hello (version ∷ []) c e =
      elim (Bool-cases (is_word hello "HELLO" && is_word version "1")) [
        | inl both ↦ rw both (
          refl,
          inr (
              inl (ground (arith, is_word_iff hello "HELLO", is_word_iff version "1"), refl, refl)),
        )
        | inr other ↦
            rw other
              (refl, inr (inr ((λ h. not_both hello version other h), refl, refl, refl, refl)))
      ]
  greet-Greets hello (version ∷ w ∷ ws) c e =
      (refl, inr (inr ((λ h. absurd (ground (arith, ap length h))), refl, refl, refl, refl)))

  handle_tokens-Greets :
      (T : Formats D) (o : Outside D) (stopping : Bool) (tok : List Bytes) (c : Conn) (e : Engine D)
      → c.greeted ≡ false
      → let r = handle_tokens T o stopping tok c e in (r.engine ≡ e) × Greets tok c r
  unfolding handle_tokens
  handle_tokens-Greets T o stopping [] c e new = (refl, inl (refl, refl, refl, refl))
  handle_tokens-Greets T o stopping (cmd ∷ args) c e new =
      subst (λ (r : Handled D). (r.engine ≡ e) × Greets (cmd ∷ args) c r)
        (sym (if_not c.greeted _ _ new)) (greet-Greets cmd args c e)

  -- A connection that has not greeted, whatever its line: the engine stays as it is; a line without a word
  -- gets no answer and changes nothing; a line with a word in it is either exactly the words HELLO and 1,
  -- which greets, or gets an error and is closed.
  pub handle_line-Greets :
      (T : Formats D) (o : Outside D) (stopping : Bool) (text : Bytes) (c : Conn) (e : Engine D)
      → c.greeted ≡ false
      → let r = handle_line T o stopping text c e in (r.engine ≡ e) × Greets (ipc_split text) c r
  unfolding handle_line
  handle_line-Greets T o stopping text c e new =
      handle_tokens-Greets T o stopping (ipc_split text) c e new
