-- ===== src/Bootstrap/Rerun.antt =====
-- internal/bootstrap/bootstrap.go: init on a host that is set up already.
use mathlib.Core.Path.{fun_ext}
use ksuite_mail.Common.{
  ℕ, ◌≡◌, refl, subst, sym, ap, Bool, true, false, none, some, [], Result, ok, err, Text, same,
}
use ksuite_mail.Common.Ints.{pos, int_eq}
use ksuite_mail.Mail.{Config}
use ksuite_mail.Secrets.{Store}
use ksuite_mail.Settings.{validate}
use ksuite_mail.Layout.{FileSpec, config_file, secrets_file, config_file_spec, secrets_file_spec}
use ksuite_mail.Bootstrap.Host.{Host, BootError, Outside, File, read_of}
use ksuite_mail.Bootstrap.Files.{starter, new_secret_store, or_fresh, decoded_config, decoded_store}
use ksuite_mail.Bootstrap.Users.{UserProvisioner, resolve_access_group, ensure_service_user}
use ksuite_mail.Bootstrap.Accounts.{Prompter}
use ksuite_mail.Bootstrap.Run.{Options, render, run}
use ksuite_mail.Bootstrap.Fresh.{quiet}

-- The file with its contents, and the mode and the owner of the specification.
abbrev pub normalized : FileSpec → File → File
normalized spec f = record { contents = f.contents; mode = spec.mode; owner = spec.owner }

-- What a run leaves of the files `c` and `s`.
pub record IsRepaired {A E : Type 0} (c s : File) (r : Result E A × Host) : Type 0 where
  pub succeeds : (a : A) × (r.0 ≡ ok a)
  pub config : r.1.files config_file ≡ some (normalized config_file_spec c)
  pub secrets : r.1.files secrets_file ≡ some (normalized secrets_file_spec s)

-- The file decodes to a valid configuration, and the other to a store of version 1.
pub record IsSetUp (o : Outside) (c s : File) : Type 0 where
  pub cfg : Config
  pub store : Store
  pub decodes : o.decode_config c.contents ≡ some cfg
  pub is_valid : validate cfg ≡ []
  pub decodes_store : o.decode_secrets s.contents ≡ some store
  pub supported : int_eq store.version (pos 1) ≡ true

abbrev existing : {A : Type 0} → Result BootError A → Result BootError (A × Bool)
existing (ok a) = ok (a, true)
existing (err e) = err e

module _ (o : Outside) (users : UserProvisioner) (prompt : Prompter) (group invoking : Text)
    (h : Host) where
  parsed : {c s : File} (u : IsSetUp o c s) → decoded_config (o.decode_config c.contents) ≡ ok u.cfg
  parsed u = rw (u.decodes, u.is_valid) refl

  parsed_store :
      {c s : File} (u : IsSetUp o c s) → decoded_store (o.decode_secrets s.contents) ≡ ok u.store
  parsed_store u = rw (u.decodes_store, u.supported) refl

  loads_config :
      {c s : File} (u : IsSetUp o c s)
      → or_fresh
          (λ t. decoded_config ((quiet o).decode_config t))
          starter
          (read_of (quiet o) (some c))
        ≡ ok (u.cfg, true)
  loads_config u = ap existing (parsed u)

  loads_store :
      {c s : File} (u : IsSetUp o c s)
      → or_fresh
          (λ t. decoded_store ((quiet o).decode_secrets t))
          new_secret_store
          (read_of (quiet o) (some s))
        ≡ ok (u.store, true)
  loads_store u = ap existing (parsed_store u)

  repaired :
      (install : Bool) (g : Text) (created : Bool) (units : Text × Text) (c s : File)
      → resolve_access_group users group invoking ≡ ok g
      → ensure_service_user users ≡ ok created
      → render g ≡ ok units
      → h.files config_file ≡ some c
      → h.files secrets_file ≡ some s
      → IsSetUp o c s
      → IsRepaired c s (
          run
            (quiet o)
            (some users)
            true
            prompt
            (record {
              access_group = group;
              invoking_user = invoking;
              install_units = install;
              account = none;
            })
            h)
  unfolding run ksuite_mail.Bootstrap.Run.run_with ksuite_mail.Actions.◌>>=◌
      ksuite_mail.Actions.◌>>◌ ksuite_mail.Bootstrap.Users.create_directories
      ksuite_mail.Actions.for_each ksuite_mail.Bootstrap.Host.create_directory
      ksuite_mail.Bootstrap.Host.change_directory ksuite_mail.Bootstrap.Host.call
      ksuite_mail.Bootstrap.Run.ensure_boundary
      ksuite_mail.Bootstrap.Accounts.ensure_boundary_config
      ksuite_mail.Bootstrap.Accounts.ensure_boundary_secrets
      ksuite_mail.Bootstrap.Files.load_or_init_secrets
      ksuite_mail.Bootstrap.Files.load_or_seed_config ksuite_mail.Bootstrap.Files.write_config
      ksuite_mail.Bootstrap.Files.write_secret_store ksuite_mail.Bootstrap.Host.alter_file
      ksuite_mail.Bootstrap.Host.change ksuite_mail.Bootstrap.Host.normalize_perms
      ksuite_mail.Bootstrap.Host.read_file ksuite_mail.Bootstrap.Host.write_file_atomic
      ksuite_mail.Bootstrap.Run.handle_units ksuite_mail.Bootstrap.Run.install_units same
  repaired false g created (service, socket) c s rg ru rr rc rt u = record {
    succeeds = rw (rg, ru, rc, loads_config u, rc, rt, loads_store u, rt, rr) (_, refl);
    config = rw (rg, ru, rc, loads_config u, rc, rt, loads_store u, rt, rr) refl;
    secrets = rw (rg, ru, rc, loads_config u, rc, rt, loads_store u, rt, rr) refl;
  }
  repaired true g created (service, socket) c s rg ru rr rc rt u = record {
    succeeds = rw (rg, ru, rc, loads_config u, rc, rt, loads_store u, rt, rr) (_, refl);
    config = rw (rg, ru, rc, loads_config u, rc, rt, loads_store u, rt, rr) refl;
    secrets = rw (rg, ru, rc, loads_config u, rc, rt, loads_store u, rt, rr) refl;
  }

-- On a host that is set up, where no call of the operating system fails, a run of init without an
-- account comes to success, keeps the contents of both files, and gives each its mode and its owner:
-- where the users can be looked up and the access group can be rendered.
pub run-IsRepaired :
    (o : Outside) (users : UserProvisioner) (prompt : Prompter) (opts : Options) (h : Host)
    (g : Text) (created : Bool) (units : Text × Text) (c s : File)
    → ((n : ℕ) → o.fails n ≡ false)
    → opts.account ≡ none
    → resolve_access_group users opts.access_group opts.invoking_user ≡ ok g
    → ensure_service_user users ≡ ok created
    → render g ≡ ok units
    → h.files config_file ≡ some c
    → h.files secrets_file ≡ some s
    → IsSetUp o c s
    → IsRepaired c s (run o (some users) true prompt opts h)
run-IsRepaired o users prompt opts h g created units c s calm bare rg ru rr rc rt u =
    subst (λ f. IsRepaired c s (run (record o { fails = f }) (some users) true prompt opts h))
      (sym (fun_ext calm))
      (subst
        (λ a.
          IsRepaired c s (run (quiet o) (some users) true prompt (record opts { account = a }) h))
        (sym bare)
        (repaired o users prompt opts.access_group opts.invoking_user h opts.install_units g created
          units c s rg ru rr rc rt u))
