-- ===== src/Cli/Parsed.antt =====
-- What holds of proxchunk's settings while its arguments are read.
use proxchunk.Prelude.{
  String, ◌≡◌, inl, inr, Bool, true, false, not, Option, none, some, List, [], ◌∷◌, if◌then◌else◌,
  Bool-cases, All, pos, Bytes, atoi,
}
use proxchunk.ProxyList.Urls.{IsUrl}
use proxchunk.Daemon.Control.Lists.{push_full-IsUrl}
use proxchunk.Daemon.Args.{select, is_one_of, flag, valued, unknown, Outcome, exits, proceeds}
use proxchunk.Cli.{cli_table, starts_dash, Settings, Argument, info, option, cli_argument, cli_from}

-- The variables of the loop: what is not set has its default, and the local proxies are URLs.
abbrev pub IsParsed : Settings → Type 0
IsParsed s =
    (s.max_proxies_set ≡ false → s.max_proxies ≡ pos 128)
    × (s.refresh_set ≡ false → s.refresh_sec ≡ pos 0)
    × All IsUrl s.extra_proxies

-- What an argument does to the variables keeps them so.
data KeepsParsed : Argument → Type 0 where
  at_info : KeepsParsed info
  at_unknown : KeepsParsed (option unknown)
  at_flag :
      {set : Settings → Settings}
      → ((s : Settings) → IsParsed s → IsParsed (set s))
      → KeepsParsed (option (flag set))
  at_valued :
      {set : Bytes → Settings → Settings}
      → ((v : Bytes) (s : Settings) → IsParsed s → IsParsed (set v s))
      → KeepsParsed (option (valued set))

set_proxies :
    (v : Bytes) (s : Settings)
    → IsParsed s
    → IsParsed (record s { max_proxies = atoi v; max_proxies_set = true })
set_proxies v s h = ((λ e. cc e), h.1, h.2)

set_refresh :
    (v : Bytes) (s : Settings)
    → IsParsed s
    → IsParsed (record s { refresh_sec = atoi v; refresh_set = true })
set_refresh v s h = (h.0, (λ e. cc e), h.2)

select-KeepsParsed :
    (a : Bytes) (table : List (List String × Argument)) (last : Argument)
    → All (λ row. KeepsParsed row.1) table
    → KeepsParsed last
    → KeepsParsed (select a table last)
unfolding select
select-KeepsParsed a [] last all h = h
select-KeepsParsed a ((words, arg) ∷ table) last (k, all) h =
    elim (Bool-cases (is_one_of a words)) [
      | inl here ↦ rw here k
      | inr later ↦ rw later (select-KeepsParsed a table last all h)
    ]

cli_table-KeepsParsed : All (λ row. KeepsParsed row.1) cli_table
cli_table-KeepsParsed = (
  at_info,
  (
    at_info,
    (
      at_valued (λ v s h. h),
      (
        at_valued (λ v s h. h),
        (
          at_valued (λ v s h. h),
          (
            at_valued set_proxies,
            (
              at_valued set_refresh,
              (
                at_valued (λ v s h. h),
                (
                  at_valued (λ v s h. h),
                  (
                    at_flag (λ s h. h),
                    (
                      at_flag (λ s h. h),
                      (
                        at_flag (λ s h. h),
                        (
                          at_flag (λ s h. h),
                          (
                            at_flag (λ s h. h),
                            (
                              at_valued
                                  (λ v s h. (h.0, h.1, push_full-IsUrl v s.extra_proxies h.2)),
                              (at_valued (λ v s h. h), (at_flag (λ s h. h), tt)),
                            ),
                          ),
                        ),
                      ),
                    ),
                  ),
                ),
              ),
            ),
          ),
        ),
      ),
    ),
  ),
)

cli_argument-KeepsParsed : (a : Bytes) → KeepsParsed (cli_argument a)
unfolding cli_argument
cli_argument-KeepsParsed a =
    select-KeepsParsed a cli_table _ cli_table-KeepsParsed (last (starts_dash a))
  where
    last :
        (dash : Bool)
        → KeepsParsed
            (if not dash then option (flag (λ s. record s { url = a })) else option unknown)
    last true = at_unknown
    last false = at_flag (λ s h. h)

abbrev pub Parsed : Outcome Settings → Type 0
Parsed (exits code) = Unit {0}
Parsed (proceeds s) = IsParsed s

-- What waits for a value keeps them so.
abbrev KeepsNeeded : Option (Bytes → Settings → Settings) → Type 0
KeepsNeeded none = Unit {0}
KeepsNeeded (some set) = (v : Bytes) (s : Settings) → IsParsed s → IsParsed (set v s)

after_argument :
    (arg : Argument) (s : Settings) (args : List Bytes)
    → KeepsParsed arg
    → IsParsed s
    → ((needed : Option (Bytes → Settings → Settings)) (s : Settings)
        → KeepsNeeded needed
        → IsParsed s
        → Parsed (cli_from needed s args))
    → Parsed (elim arg [
      | info ↦ exits 0
      | option (flag set) ↦ cli_from none (set s) args
      | option (valued set) ↦ cli_from (some set) s args
      | option unknown ↦ exits 1
    ])
after_argument info s args at_info h next = tt
after_argument (option unknown) s args at_unknown h next = tt
after_argument (option (flag set)) s args (at_flag keeps) h next = next none (set s) tt (keeps s h)
after_argument (option (valued set)) s args (at_valued keeps) h next = next (some set) s keeps h

pub cli_from-Parsed :
    (needed : Option (Bytes → Settings → Settings)) (s : Settings) (args : List Bytes)
    → KeepsNeeded needed
    → IsParsed s
    → Parsed (cli_from needed s args)
unfolding cli_from
cli_from-Parsed none s [] k h = h
cli_from-Parsed (some set) s [] k h = tt
cli_from-Parsed (some set) s (v ∷ args) k h = cli_from-Parsed none (set v s) args tt (k v s h)
cli_from-Parsed none s (a ∷ args) k h =
    after_argument (cli_argument a) s args (cli_argument-KeepsParsed a) h
      (λ needed s' k' h'. cli_from-Parsed needed s' args k' h')
