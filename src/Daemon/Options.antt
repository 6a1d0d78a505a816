-- ===== src/Daemon/Options.antt =====
-- src/ohnod/ohnod.cc: which arguments `parseArguments` understands.
use ohno.Common.{
  ℕ, ◌≡◌, refl, ap, ◌<◌, ◌^◌, List, [], ◌∷◌, ◌++◌, All, ◌≢◌, ◌⊎◌, ◌∙◌, sym, append_assoc,
  append-nil, inl, inr,
}
use ohno.Common.Bytes.{Bytes, codes, empty, empty_ne, eqb}
use ohno.Common.Decimal.{decimal}
use ohno.Common.Exec.{ok}
use ohno.Log.{Level, level_name, level_or-level_name}
use ohno.Net.Addr.Parsed.{stoi-decimal}
use ohno.Backend.Strategy.{Equipment}
use ohno.Program.{success}
use ohno.Daemon.{
  Config, word_of, unknown, help, with_server, without_ssl, with_interval, interval_of, all, early,
  default, parse_loop, Daemon, exited, parse_arguments, complete, main_body, main, caught,
}

-- An option that takes effect, and its arguments.
pub data Setting : Type 0 where
  level : Level → Setting
  server : Bytes → Setting
  insecure : Setting
  interval : ℕ → Setting

pub spell : Setting → List Bytes
spell (level l) = codes "--loglevel" ∷ level_name l ∷ []
spell (server url) = codes "--apiserver" ∷ url ∷ []
spell insecure = codes "--insecure" ∷ []
spell (interval sec) = codes "--interval" ∷ decimal sec ∷ []

pub spell_all : List Setting → List Bytes
spell_all [] = []
spell_all (x ∷ xs) = spell x ++ spell_all xs

-- The meaning of an option: the last of its kind counts.
unfoldable pub set : Config → Setting → Config
set c (level l) = record c { log_level = l }
set c (server url) = with_server url c
set c insecure = without_ssl c
set c (interval sec) = with_interval sec c

unfoldable pub set_all : Config → List Setting → Config
set_all c [] = c
set_all c (x ∷ xs) = set_all (set c x) xs

-- An interval fits into an `int`.
abbrev pub Fits : Setting → Type 0
Fits (interval sec) = sec < 2 ^ 31
Fits (level l) = Unit {0}
Fits (server url) = Unit {0}
Fits insecure = Unit {0}

-- The options in front of other arguments.
parse_loop-spell :
    (c : Config) (x : Setting) (rest : List Bytes)
    → Fits x
    → parse_loop c (spell x ++ rest) ≡ parse_loop (set c x) rest
unfolding parse_loop spell set word_of eqb interval_of
parse_loop-spell c (level l) rest h =
    ap (λ k. parse_loop (record c { log_level = k }) rest) (level_or-level_name c.log_level l)
parse_loop-spell c (server url) rest h = refl
parse_loop-spell c insecure [] h = refl
parse_loop-spell c insecure (value ∷ rest) h = refl
parse_loop-spell c (interval sec) rest h = rw (stoi-decimal sec h) refl

parse_loop-spell_all :
    (c : Config) (xs : List Setting) (rest : List Bytes)
    → All Fits xs
    → parse_loop c (spell_all xs ++ rest) ≡ parse_loop (set_all c xs) rest
unfolding spell_all set_all
parse_loop-spell_all c [] rest h = refl
parse_loop-spell_all c (x ∷ xs) rest h =
    ap (parse_loop c) (append_assoc (spell x) (spell_all xs) rest)
    ∙ parse_loop-spell c x (spell_all xs ++ rest) h.0
    ∙ parse_loop-spell_all (set c x) xs rest h.1

-- A word that ends the loop: "--help", or none of the words.
abbrev pub Ends : Bytes → Type 0
Ends arg = (word_of arg ≡ unknown) ⊎ (word_of arg ≡ help)

parse_loop-Ends :
    (c : Config) (arg : Bytes) (rest : List Bytes)
    → Ends arg
    → parse_loop c (arg ∷ rest) ≡ ok (early (with_server [] c))
unfolding parse_loop
parse_loop-Ends c arg [] (inl e) = rw (parse_loop, e) refl
parse_loop-Ends c arg [] (inr e) = rw (parse_loop, e) refl
parse_loop-Ends c arg (value ∷ rest) (inl e) = rw (parse_loop, e) refl
parse_loop-Ends c arg (value ∷ rest) (inr e) = rw (parse_loop, e) refl

module _ {J E K : Type 0} (q : Equipment J E K) where
  -- For all options, each with its value, whose intervals fit into an `int`: if they give an address of
  -- the API server, `parseArguments` reads from them the default configuration as each option in turn
  -- changes it, so that the last of a kind counts, and nothing else changes.
  pub parse_arguments-spell_all :
      (xs : List Setting) (d : Daemon E K)
      → All Fits xs
      → (set_all default xs).bkinfo.api_server ≢ []
      → parse_arguments q (spell_all xs) d ≡ (ok (set_all default xs), d)
  unfolding parse_arguments complete parse_loop
  parse_arguments-spell_all xs d fits given =
      let read : parse_loop default (spell_all xs) ≡ ok (all (set_all default xs)) =
        ap (parse_loop default) (sym (append-nil (spell_all xs)))
        ∙ parse_loop-spell_all default xs [] fits in
      rw (read, empty_ne (set_all default xs).bkinfo.api_server given) refl

  -- For such options, behind which stands "--help" or a word that the loop does not know, such as
  -- "--ssl-dir", and then any others: the daemon ends with success and has not started; ETCD, the
  -- system, the loggers and the client are as they were.
  pub main-Ends :
      (xs : List Setting) (arg : Bytes) (rest : List Bytes) (d : Daemon E K)
      → All Fits xs
      → Ends arg
      → main q (spell_all xs ++ arg ∷ rest) d ≡ (ok (exited success), d)
  unfolding main main_body parse_arguments complete caught empty
  main-Ends xs arg rest d fits ends =
      rw
        (parse_loop-spell_all default xs (arg ∷ rest) fits
          ∙ parse_loop-Ends (set_all default xs) arg rest ends)
        refl
