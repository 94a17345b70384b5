-- ===== src/ProxyList/OutputName.antt =====
-- The default output path: one plain file name, taken from the URL.
use proxchunk.Prelude.{
  ℕ, ◌≡◌, refl, inl, inr, true, false, ◌||◌, [], ◌∷◌, ◌++◌, arith, if◌then◌else◌, Bool-cases,
  is_empty, Bytes, codes, bytes_eq, contains_byte,
}
use proxchunk.ProxyList.{after_last_slash, before_query, default_output_name}

-- A name that stays in its directory and names a file there.
pub record IsFileName (s : Bytes) : Type 0 where
  pub no_slash : contains_byte b'/' s ≡ false
  pub no_query : contains_byte b'?' s ≡ false
  pub not_empty : is_empty s ≡ false
  pub not_dot : bytes_eq s (codes ".") ≡ false
  pub not_dot_dot : bytes_eq s (codes "..") ≡ false

after_last_slash-no_slash : (s : Bytes) → contains_byte b'/' (after_last_slash s) ≡ false
unfolding after_last_slash contains_byte
after_last_slash-no_slash [] = refl
after_last_slash-no_slash (c ∷ s) = ground (arith, after_last_slash-no_slash s)

before_query-no_query : (s : Bytes) → contains_byte b'?' (before_query s) ≡ false
unfolding before_query contains_byte
before_query-no_query [] = refl
before_query-no_query (c ∷ s) = ground (arith, before_query-no_query s)

before_query-no_byte :
    (b : ℕ) (s : Bytes) → contains_byte b s ≡ false → contains_byte b (before_query s) ≡ false
unfolding before_query contains_byte
before_query-no_byte b [] h = refl
before_query-no_byte b (c ∷ s) h = ground (arith, before_query-no_byte b s)

-- For every URL the default output name holds no `/` and no `?`, and is not empty, `.` or `..`.
pub default_output_name-IsFileName : (url : Bytes) → IsFileName (default_output_name url)
unfolding default_output_name
default_output_name-IsFileName url =
    named (before_query (after_last_slash url))
      (before_query-no_byte b'/' (after_last_slash url) (after_last_slash-no_slash url))
      (before_query-no_query (after_last_slash url))
  where
    fallback : IsFileName (codes "download.bin")
    fallback =
        unfold contains_byte bytes_eq in
        record {
          no_slash = refl;
          no_query = refl;
          not_empty = refl;
          not_dot = refl;
          not_dot_dot = refl;
        }

    named :
        (s : Bytes)
        → contains_byte b'/' s ≡ false
        → contains_byte b'?' s ≡ false
        → IsFileName (
            if is_empty s || bytes_eq s (codes ".") || bytes_eq s (codes "..")
            then codes "download.bin"
            else s)
    named s slash query =
        elim (Bool-cases (is_empty s || bytes_eq s (codes ".") || bytes_eq s (codes ".."))) [
          | inl bad ↦ rw bad fallback
          | inr good ↦ rw good (record {
            no_slash = slash;
            no_query = query;
            not_empty = ground arith;
            not_dot = ground arith;
            not_dot_dot = ground arith;
          })
        ]

contains_byte-append_slash : (pre t : Bytes) → contains_byte b'/' (pre ++ b'/' ∷ t) ≡ true
unfolding contains_byte
contains_byte-append_slash [] t = refl
contains_byte-append_slash (c ∷ pre) t = ground (arith, contains_byte-append_slash pre t)

after_last_slash-fixed : (s : Bytes) → contains_byte b'/' s ≡ false → after_last_slash s ≡ s
unfolding after_last_slash contains_byte
after_last_slash-fixed [] h = refl
after_last_slash-fixed (c ∷ s) h = ground arith

after_last_slash-append :
    (pre s : Bytes) → contains_byte b'/' s ≡ false → after_last_slash (pre ++ b'/' ∷ s) ≡ s
unfolding after_last_slash
after_last_slash-append [] s h = rw h
after_last_slash-append (c ∷ pre) s h =
    rw (contains_byte-append_slash pre s) (after_last_slash-append pre s h)

-- The name depends on nothing in front of the last `/` of the URL, also where that `/` stands in
-- the query: with no `/` in `rest`, `pre/rest` is named as `rest` is.
default_output_name-last_slash :
    (pre rest : Bytes)
    → contains_byte b'/' rest ≡ false
    → default_output_name (pre ++ b'/' ∷ rest) ≡ default_output_name rest
unfolding default_output_name
default_output_name-last_slash pre rest h =
    rw (after_last_slash-append pre rest h, after_last_slash-fixed rest h)

before_query-append :
    (seg query : Bytes) → contains_byte b'?' seg ≡ false → before_query (seg ++ b'?' ∷ query) ≡ seg
unfolding before_query contains_byte
before_query-append [] query h = refl
before_query-append (c ∷ seg) query h = ground (arith, before_query-append seg query)

-- Where the query holds no `/`, the name is the last segment of the path, without the query.
default_output_name-segment :
    (pre seg query : Bytes)
    → IsFileName seg
    → contains_byte b'/' (seg ++ b'?' ∷ query) ≡ false
    → default_output_name (pre ++ b'/' ∷ (seg ++ b'?' ∷ query)) ≡ seg
unfolding default_output_name
default_output_name-segment pre seg query v h = rw (
  after_last_slash-append pre (seg ++ b'?' ∷ query) h,
  before_query-append seg query v.no_query,
  v.not_empty,
  v.not_dot,
  v.not_dot_dot,
)
