-- ===== src/Bootstrap/Fresh.antt =====
-- internal/bootstrap/bootstrap.go: init on a host without the two files.
use mathlib.Core.Path.{fun_ext}
use ksuite_mail.Common.{
  ℕ, ◌≡◌, refl, subst, sym, Bool, true, false, none, some, Result, ok, Text, same,
}
use ksuite_mail.Layout.{config_file, secrets_file}
use ksuite_mail.Bootstrap.Host.{Host, Outside, File}
use ksuite_mail.Bootstrap.Users.{UserProvisioner, resolve_access_group, ensure_service_user}
use ksuite_mail.Bootstrap.Files.{new_secret_store}
use ksuite_mail.Bootstrap.Accounts.{Prompter}
use ksuite_mail.Bootstrap.Run.{Options, render, run}
use ksuite_mail.Bootstrap.Views.{view}

abbrev pub quiet : Outside → Outside
quiet o = record o { fails = λ n. false }

-- A run without an account is done, and both files have their first contents.
pub record IsInstalled {A E : Type 0} (o : Outside) (text : Text) (r : Result E A × Host)
    : Type 0 where
  pub succeeds : (a : A) × (r.0 ≡ ok a)
  pub configured : view r.1 config_file ≡ some text
  pub stored : view r.1 secrets_file ≡ some (o.encode_secrets new_secret_store)

module _ (o : Outside) (users : UserProvisioner) (prompt : Prompter) (group invoking : Text)
    (h : Host) where
  installed :
      (install : Bool) (g text : Text) (created : Bool) (units : Text × Text)
      → resolve_access_group users group invoking ≡ ok g
      → ensure_service_user users ≡ ok created
      → render g ≡ ok units
      → o.starter_document ≡ some text
      → h.files config_file ≡ none
      → h.files secrets_file ≡ none
      → IsInstalled (quiet o) text (
          run
            (quiet o)
            (some users)
            true
            prompt
            (record {
              access_group = group;
              invoking_user = invoking;
              install_units = install;
              account = none;
            })
            h)
  unfolding run ksuite_mail.Bootstrap.Run.run_with ksuite_mail.Actions.◌>>=◌
      ksuite_mail.Actions.◌>>◌ ksuite_mail.Bootstrap.Users.create_directories
      ksuite_mail.Actions.for_each ksuite_mail.Bootstrap.Host.create_directory
      ksuite_mail.Bootstrap.Host.change_directory ksuite_mail.Bootstrap.Host.call
      ksuite_mail.Bootstrap.Run.ensure_boundary
      ksuite_mail.Bootstrap.Accounts.ensure_boundary_config
      ksuite_mail.Bootstrap.Accounts.ensure_boundary_secrets
      ksuite_mail.Bootstrap.Files.load_or_init_secrets
      ksuite_mail.Bootstrap.Files.load_or_seed_config ksuite_mail.Bootstrap.Files.write_config
      ksuite_mail.Bootstrap.Files.write_secret_store ksuite_mail.Bootstrap.Host.alter_file
      ksuite_mail.Bootstrap.Host.change ksuite_mail.Bootstrap.Host.normalize_perms
      ksuite_mail.Bootstrap.Host.read_file ksuite_mail.Bootstrap.Host.write_file_atomic
      ksuite_mail.Bootstrap.Run.handle_units ksuite_mail.Bootstrap.Run.install_units same
  installed false g text created (service, socket) rg ru rr rs rc rt = record {
    succeeds = rw (rg, ru, rc, rs, rt, rr) (_, refl);
    configured = rw (rg, ru, rc, rs, rt, rr) refl;
    stored = rw (rg, ru, rc, rs, rt, rr) refl;
  }
  installed true g text created (service, socket) rg ru rr rs rc rt = record {
    succeeds = rw (rg, ru, rc, rs, rt, rr) (_, refl);
    configured = rw (rg, ru, rc, rs, rt, rr) refl;
    stored = rw (rg, ru, rc, rs, rt, rr) refl;
  }

-- On a host without the two files, where no call of the operating system fails, a run of init without
-- an account comes to success, and leaves the starter document and an empty store of secrets: where the
-- users can be looked up, the access group can be rendered and the starter document can be encoded.
pub run-IsInstalled :
    (o : Outside) (users : UserProvisioner) (prompt : Prompter) (opts : Options) (h : Host)
    (g text : Text) (created : Bool) (units : Text × Text)
    → ((n : ℕ) → o.fails n ≡ false)
    → opts.account ≡ none
    → resolve_access_group users opts.access_group opts.invoking_user ≡ ok g
    → ensure_service_user users ≡ ok created
    → render g ≡ ok units
    → o.starter_document ≡ some text
    → h.files config_file ≡ none
    → h.files secrets_file ≡ none
    → IsInstalled o text (run o (some users) true prompt opts h)
run-IsInstalled o users prompt opts h g text created units calm bare rg ru rr rs rc rt =
    subst
      (λ f.
        IsInstalled (record o { fails = f }) text
          (run (record o { fails = f }) (some users) true prompt opts h))
      (sym (fun_ext calm))
      (subst
        (λ a.
          IsInstalled (quiet o) text
            (run (quiet o) (some users) true prompt (record opts { account = a }) h))
        (sym bare)
        (installed o users prompt opts.access_group opts.invoking_user h opts.install_units g text
          created units rg ru rr rs rc rt))
