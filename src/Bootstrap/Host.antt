-- ===== src/Bootstrap/Host.antt =====
-- internal/bootstrap: the host, and the calls of the operating system. The state is the files and the
-- directories by their canonical paths, with Root in front of them or without, and the number of calls
-- made. Any call may fail; the temporary file of a write that fails is removed, and not in the state.
use ksuite_mail.Common.{
  ℕ, ◌+◌, Bool, Option, none, some, List, Result, ok, err, if◌then◌else◌, Text, same,
}
use ksuite_mail.Mail.{Config}
use ksuite_mail.Actions.{Action, ◌>>=◌, ◌>>◌}
use ksuite_mail.Settings.{Problem}
use ksuite_mail.Secrets.{FileError, not_exist, other_file_error, Store}
use ksuite_mail.Layout.{Owner, FileSpec, DirSpec}

pub record File : Type 0 where
  pub contents : Text
  pub mode : ℕ
  pub owner : Owner

pub record Directory : Type 0 where
  pub mode : ℕ
  pub owner : Owner

pub record Host : Type 0 where
  pub files : Text → Option File
  pub directories : Text → Option Directory
  pub calls : ℕ

pub data BootError : Type 0 where
  missing_dependencies : BootError
  group_unknown root_group no_group : BootError
  user_unknown user_not_created not_dedicated wrong_home : BootError
  invalid_seed : List Problem → BootError
  malformed_config marshal_error : BootError
  invalid_config : List Problem → BootError
  malformed_secrets unsupported_version : BootError
  already_present no_prompter prompt_failed empty_password : BootError
  blank_group : BootError
  os_error : FileError → BootError

abbrev pub Boot : Type 0 → Type 0
Boot A = Action Host BootError A

-- What the run has from outside: which calls fail, where os.ErrNotExist is
-- only the error of a file that is not there; the owner of a new file, and
-- what the umask leaves of the mode of a directory; the codecs of TOML
-- and of JSON, and the starter document.
pub record Outside : Type 0 where
  pub fails : ℕ → Bool
  pub own : Owner
  pub masked : ℕ → ℕ
  pub decode_config : Text → Option Config
  pub encode_config : Config → Option Text
  pub decode_secrets : Text → Option Store
  pub encode_secrets : Store → Text
  pub starter_document : Option Text

abbrev pub outcome_of : Bool → Result BootError (Unit {0})
outcome_of failed = if failed then err (os_error other_file_error) else ok tt

abbrev pub put_file : Text → Option File → (Text → Option File) → Text → Option File
put_file path file files q = if same q path then file else files q

abbrev pub put_directory : Text → Directory → (Text → Option Directory) → Text → Option Directory
put_directory path d directories q = if same q path then some d else directories q

module _ (o : Outside) where
  -- A call that changes nothing that is modelled.
  unfoldable pub call : Boot (Unit {0})
  call h = (outcome_of (o.fails h.calls), record h { calls = h.calls + 1 })

  -- A change of the files that one call makes, if it does not fail.
  unfoldable pub change : ((Text → Option File) → Text → Option File) → Boot (Unit {0})
  unfolding call ◌>>◌ ◌>>=◌
  change f = call >> (λ h. (ok tt, record h { files = f h.files }))

  -- writeFileAtomic: os.CreateTemp, Chmod, Write and Close, then os.Rename, which puts it in place.
  unfoldable pub write_file_atomic : Text → Text → ℕ → Boot (Unit {0})
  write_file_atomic path contents mode = do
    call
    call
    call
    call
    change (put_file path (some (record { contents = contents; mode = mode; owner = o.own })))

  abbrev pub read_of : Option File → Result BootError Text
  read_of none = err (os_error not_exist)
  read_of (some f) = ok f.contents

  -- os.ReadFile, and os.Open with what is read then
  unfoldable pub read_file : Text → Boot Text
  read_file path = call >> (λ h. (read_of (h.files path), h))

  abbrev pub alter_in : Text → (File → File) → Option File → Boot (Unit {0})
  alter_in path f none h = (err (os_error not_exist), h)
  alter_in path f (some file) h =
      (ok tt, record h { files = put_file path (some (f file)) h.files })

  unfoldable pub alter_file : Text → (File → File) → Boot (Unit {0})
  alter_file path f = call >> (λ h. alter_in path f (h.files path) h)

  -- os.Chmod and Chown on a file
  abbrev pub chmod_file : Text → ℕ → Boot (Unit {0})
  chmod_file path mode = alter_file path (λ (f : File). record f { mode = mode })

  abbrev pub chown_file : Text → Owner → Boot (Unit {0})
  chown_file path owner = alter_file path (λ (f : File). record f { owner = owner })

  -- normalizePerms
  unfoldable pub normalize_perms : FileSpec → Boot (Unit {0})
  normalize_perms spec = do chmod_file spec.path spec.mode; chown_file spec.path spec.owner

  abbrev pub made : DirSpec → Option Directory → Directory
  made d none = record { mode = o.masked d.mode; owner = o.own }
  made d (some directory) = directory

  -- A change of the directories that one call makes, if it does not fail.
  unfoldable pub change_directory : DirSpec → (Option Directory → Directory) → Boot (Unit {0})
  change_directory d f = call >> (λ h. (
    ok tt,
    record h { directories = put_directory d.path (f (h.directories d.path)) h.directories },
  ))

  -- One round of createDirectories: os.MkdirAll, which keeps a directory that is there, os.Chmod and
  -- Chown.
  unfoldable pub create_directory : DirSpec → Boot (Unit {0})
  create_directory d = do
    change_directory d (made d)
    change_directory d (λ x. record (made d x) { mode = d.mode })
    change_directory d (λ x. record (made d x) { owner = d.owner })
