-- ===== src/Daemon/Control/Lists.antt =====
-- The proxies that proxchunkd starts with are URLs.
use proxchunk.Prelude.{
  String, ◌≡◌, refl, subst, ◌⊎◌, inl, inr, Bool, true, false, Option, none, some, List, [], ◌∷◌,
  ◌++◌, if◌then◌else◌, Bool-cases, All, All-append, Bytes, codes, contains,
}
use proxchunk.ProxyList.{is_blank, is_skipped, load_proxy_file, normalize_proxy_line}
use proxchunk.ProxyList.Urls.{IsUrl, IsScheme, normalize_proxy_line-IsUrl, load_proxy_file-IsUrl}
use proxchunk.Daemon.Args.{
  Options, default_options, Effect, flag, valued, unknown, select, is_one_of, push_full,
  daemon_table, daemon_option, parse_from, asks_info, parse_args, below_one, is_negative,
  checked_options, daemon_options, Outcome, exits, proceeds,
}
use proxchunk.Daemon.Control.{load_lists, load_extra_lists}

http-IsScheme : IsScheme (codes "http://")
http-IsScheme =
    unfold contains is_skipped is_blank in
    record { has_scheme = refl; head_full = refl; no_comment = refl }

load_lists-IsUrl :
    (read : Bytes → Option Bytes) (extra files : List Bytes)
    → All IsUrl extra
    → All IsUrl (load_lists read extra files)
unfolding load_lists
load_lists-IsUrl read extra [] all = all
load_lists-IsUrl read extra (f ∷ files) all =
    load_lists-IsUrl read (extra ++ load_proxy_file (read f) (codes "http://")) files (
      All-append IsUrl extra _ all (load_proxy_file-IsUrl (read f) (codes "http://") http-IsScheme))

-- What `--socks` adds to a list of URLs.
pub push_full-IsUrl :
    (v : Bytes) (us : List Bytes)
    → All IsUrl us
    → All IsUrl (push_full (normalize_proxy_line v (codes "http://")) us)
push_full-IsUrl v us all =
    push (normalize_proxy_line v (codes "http://"))
      (normalize_proxy_line-IsUrl v (codes "http://") http-IsScheme)
  where
    push : (u : Bytes) → (u ≡ []) ⊎ IsUrl u → All IsUrl (push_full u us)
    push [] h = all
    push (c ∷ u) (inl e) = cc e
    push (c ∷ u) (inr h) = All-append IsUrl us ((c ∷ u) ∷ []) all (h, tt)

abbrev HasUrls : Options → Type 0
HasUrls o = All IsUrl o.extra_proxies

-- What an argument does to the options keeps them so.
data KeepsUrls : Effect Options → Type 0 where
  at_unknown : KeepsUrls unknown
  at_flag :
      {set : Options → Options}
      → ((o : Options) → HasUrls o → HasUrls (set o))
      → KeepsUrls (flag set)
  at_valued :
      {set : Bytes → Options → Options}
      → ((v : Bytes) (o : Options) → HasUrls o → HasUrls (set v o))
      → KeepsUrls (valued set)

daemon_table-KeepsUrls : All (λ row. KeepsUrls row.1) daemon_table
daemon_table-KeepsUrls = (
  at_flag (λ o h. h),
  (
    at_flag (λ o h. h),
    (
      at_flag (λ o h. h),
      (
        at_valued (λ v o h. h),
        (
          at_valued (λ v o h. h),
          (
            at_valued (λ v o h. h),
            (
              at_valued (λ v o h. h),
              (
                at_valued (λ v o h. h),
                (
                  at_flag (λ o h. h),
                  (
                    at_flag (λ o h. h),
                    (
                      at_flag (λ o h. h),
                      (
                        at_valued (λ v o h. push_full-IsUrl v o.extra_proxies h),
                        (
                          at_valued (λ v o h. h),
                          (at_flag (λ o h. h), (at_valued (λ v o h. h), (at_flag (λ o h. h), tt))),
                        ),
                      ),
                    ),
                  ),
                ),
              ),
            ),
          ),
        ),
      ),
    ),
  ),
)

select-KeepsUrls :
    (a : Bytes) (table : List (List String × Effect Options))
    → All (λ row. KeepsUrls row.1) table
    → KeepsUrls (select a table unknown)
unfolding select
select-KeepsUrls a [] all = at_unknown
select-KeepsUrls a ((words, effect) ∷ table) (k, all) = elim (Bool-cases (is_one_of a words)) [
  | inl here ↦ rw here k
  | inr later ↦ rw later (select-KeepsUrls a table all)
]

abbrev ParsedUrls : Outcome Options → Type 0
ParsedUrls (exits code) = Unit {0}
ParsedUrls (proceeds o) = HasUrls o

abbrev KeepsNeeded : Option (Bytes → Options → Options) → Type 0
KeepsNeeded none = Unit {0}
KeepsNeeded (some set) = (v : Bytes) (o : Options) → HasUrls o → HasUrls (set v o)

after_effect :
    (effect : Effect Options) (o : Options) (args : List Bytes)
    → KeepsUrls effect
    → HasUrls o
    → ((needed : Option (Bytes → Options → Options)) (o : Options)
        → KeepsNeeded needed
        → HasUrls o
        → ParsedUrls (parse_from daemon_option needed o args))
    → ParsedUrls (elim effect [
      | flag set ↦ parse_from daemon_option none (set o) args
      | valued set ↦ parse_from daemon_option (some set) o args
      | unknown ↦ exits 1
    ])
after_effect unknown o args at_unknown h next = tt
after_effect (flag set) o args (at_flag keeps) h next = next none (set o) tt (keeps o h)
after_effect (valued set) o args (at_valued keeps) h next = next (some set) o keeps h

parse_from-ParsedUrls :
    (needed : Option (Bytes → Options → Options)) (o : Options) (args : List Bytes)
    → KeepsNeeded needed
    → HasUrls o
    → ParsedUrls (parse_from daemon_option needed o args)
unfolding parse_from
parse_from-ParsedUrls none o [] k h = h
parse_from-ParsedUrls (some set) o [] k h = tt
parse_from-ParsedUrls (some set) o (v ∷ args) k h =
    parse_from-ParsedUrls none (set v o) args tt (k v o h)
parse_from-ParsedUrls none o (a ∷ args) k h =
    after_effect (daemon_option a) o args
      (unfold daemon_option in select-KeepsUrls a daemon_table daemon_table-KeepsUrls) h
      (λ needed o' k' h'. parse_from-ParsedUrls needed o' args k' h')

daemon_options-ParsedUrls : (url : Bytes) (args : List Bytes) → ParsedUrls (daemon_options url args)
unfolding daemon_options parse_args
daemon_options-ParsedUrls url args =
    go (asks_info args) (parse_from daemon_option none (default_options url) args)
      (parse_from-ParsedUrls none (default_options url) args tt tt)
  where
    go :
        (asked : Bool) (outcome : Outcome Options)
        → ParsedUrls outcome
        → ParsedUrls (checked_options (if asked then exits 0 else outcome))
    go true outcome h = tt
    go false (exits code) h = tt
    go false (proceeds o) h = elim (Bool-cases (below_one o.max_proxies)) [
      | inl low ↦ rw low tt
      | inr enough ↦ elim (Bool-cases (is_negative o.refresh_sec)) [
        | inl negative ↦ rw (enough, negative) tt
        | inr positive ↦ rw (enough, positive) h
      ]
    ]

-- Every local proxy that the server starts with is a URL with a scheme, whatever the command line and
-- the list files hold.
pub load_extra_lists-IsUrl :
    (url : Bytes) (args : List Bytes) (read : Bytes → Option Bytes) (user_list : Bytes)
    (o : Options)
    → daemon_options url args ≡ proceeds o
    → All IsUrl (load_extra_lists read user_list o).extra_proxies
unfolding load_extra_lists
load_extra_lists-IsUrl url args read user_list o h =
    load_lists-IsUrl read o.extra_proxies
      (if o.use_user_list then user_list ∷ o.proxy_files else o.proxy_files)
      (subst ParsedUrls h (daemon_options-ParsedUrls url args))
