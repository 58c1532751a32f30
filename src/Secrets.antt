-- ===== src/Secrets.antt =====
-- internal/secrets/secrets.go: the file of credentials that the daemon reads. JSON is a parameter.
pub mod Loaded
use ksuite_mail.Common.{
  ℕ, ◌%◌, ◌^◌, Bool, true, false, Option, none, some, List, [], ◌∷◌, Result, ok, err, ◌==◌,
  if◌then◌else◌, Text, same,
}
use ksuite_mail.Common.Ints.{ℤ, pos, int_eq}

-- What errors.Is tells apart of an error of the operating system.
pub data FileError : Type 0 where
  not_exist permission other_file_error : FileError

-- `secrets` has an id once; a missing object is the empty list.
pub record Store : Type 0 where
  pub version : ℤ
  pub secrets : List (Text × Text)

pub data LoadError : Type 0 where
  file_error : FileError → LoadError
  unsafe_permissions unsupported_version malformed : LoadError

-- A path, and what os.Stat and os.ReadFile find there; `decode` is json.Unmarshal.
pub record SecretsFile : Type 0 where
  pub mode : Result FileError ℕ
  pub contents : Result FileError Text
  pub decode : Text → Option Store

-- info.Mode().Perm()
abbrev pub perm_bits : ℕ → ℕ
perm_bits mode = mode % 2 ^ 9

-- The bits 0o077.
abbrev pub beyond_owner : ℕ → ℕ
beyond_owner perm = perm % 2 ^ 6

abbrev supported : Store → Result LoadError Store
supported s = if int_eq s.version (pos 1) then ok s else err unsupported_version

abbrev decoded : Option Store → Result LoadError Store
decoded none = err malformed
decoded (some s) = supported s

abbrev read_contents : SecretsFile → Result FileError Text → Result LoadError Store
read_contents f (err e) = err (file_error e)
read_contents f (ok text) = decoded (f.decode text)

abbrev checked_mode : SecretsFile → Result FileError ℕ → Result LoadError Store
checked_mode f (err e) = err (file_error e)
checked_mode f (ok mode) =
    if beyond_owner (perm_bits mode) == 0
    then read_contents f f.contents
    else err unsafe_permissions

-- Load
unfoldable pub load : SecretsFile → Result LoadError Store
load f = checked_mode f f.mode

-- A lookup in the map.
unfoldable pub lookup_secret : Text → List (Text × Text) → Option Text
lookup_secret id [] = none
lookup_secret id ((key, value) ∷ rest) = if same key id then some value else lookup_secret id rest

-- Store.Resolve
unfoldable pub resolve : Store → Text → Option Text
unfolding lookup_secret
resolve s id = lookup_secret id s.secrets
