-- ===== src/Tests/Setup.antt =====
-- Runs of init: with an account and without, on a host without the two files, and on one that has them.
use ksuite_mail.Common.{
  ℕ, ◌≡◌, refl, ap, subst, Bool, Option, err, true, false, none, some, List, [], ◌∷◌, ◌++◌, same,
  if◌then◌else◌, Result, ok, Text, codes,
}
use ksuite_mail.Common.Ints.{pos}
use ksuite_mail.Actions.Triples.{Ends}
use ksuite_mail.Secrets.{Store, resolve}
use ksuite_mail.Bootstrap.Host.{File, Host, Outside}
use ksuite_mail.Bootstrap.Users.{UserProvisioner}
use ksuite_mail.Bootstrap.Files.{starter, new_secret_store}
use ksuite_mail.Bootstrap.Accounts.{AccountSeed, Prompter}
use ksuite_mail.Bootstrap.Run.{Options, render_service, render_socket, run}
use ksuite_mail.Bootstrap.Views.{view}
use ksuite_mail.Bootstrap.Bound.{IsCodec, IsBound}
use ksuite_mail.Bootstrap.Whole.{Reached}
use ksuite_mail.Bootstrap.Ended.{run-Reached}
use ksuite_mail.Bootstrap.Rerun.{IsRepaired, IsSetUp, run-IsRepaired}
use ksuite_mail.Layout.{config_file, secrets_file}
use ksuite_mail.Bootstrap.Fresh.{IsInstalled, run-IsInstalled}
use ksuite_mail.Tests.Codec.{decode, decode-write, config, store}

-- No call fails.
abbrev outside : Outside
outside = record {
  fails = λ n. false;
  own = record { user = codes "root"; group = codes "root" };
  masked = λ mode. mode;
  decode_config = decode config;
  encode_config = λ cfg. some (config.write cfg);
  decode_secrets = decode store;
  encode_secrets = store.write;
  starter_document = some (config.write starter);
}

abbrev text_of : Option Text → Text
text_of none = []
text_of (some t) = t

outside-IsCodec : IsCodec outside
outside-IsCodec = record {
  config = λ c t e. subst (λ u. decode config u ≡ some c) (ap text_of e) (decode-write config c);
  store = λ s. (s, decode-write store s, refl, λ id. refl);
  document = λ t e.
      subst (λ u. decode config u ≡ some starter) (ap text_of e) (decode-write config starter);
}

abbrev bare : Host
bare = record { files = λ q. none; directories = λ q. none; calls = 0 }

bare-IsBound : IsBound outside (view bare)
bare-IsBound = record { bound = λ t cfg r d. cc r }

abbrev users : UserProvisioner
users = record {
  user_exists = λ name. ok false;
  ensure_system_user = λ name home shell. ok tt;
  primary_group_name = λ name. ok (codes "staff");
  lookup_user = λ name. ok (record { uid = pos 999; home_dir = [] });
}

abbrev seed : AccountSeed
seed = record {
  id = codes "work";
  email = codes "me@a.ch";
  host = codes "mail";
  port = pos 993;
  tls = true;
  username = codes "me";
  policy = codes "full";
  domains = [];
  folders = codes "INBOX" ∷ [];
}

abbrev prompter : Prompter
prompter = some (λ prompt. ok (codes "pw"))

abbrev options : Options
options = record {
  access_group = codes "mail";
  invoking_user = [];
  install_units = true;
  account = some seed;
}

run-Reached_example :
    Ends
      (λ _ h. Reached outside outside-IsCodec prompter (some seed) (view h))
      (λ h. IsBound outside (view h))
      (run outside (some users) true prompter options bare)
run-Reached_example =
    run-Reached outside outside-IsCodec (some users) true prompter options bare bare-IsBound

abbrev succeeds : {E A : Type 0} → Result E A → Bool
succeeds (ok a) = true
succeeds (err e) = false

init_succeeds : succeeds (run outside (some users) true prompter options bare).0 ≡ true
unfolding run ksuite_mail.Bootstrap.Run.run_with ksuite_mail.Actions.◌>>=◌
    ksuite_mail.Bootstrap.Users.resolve_access_group ksuite_mail.Strings.trim_space
    ksuite_mail.Strings.trim_right ksuite_mail.Strings.trim_left ksuite_mail.Strings.is_space
    ksuite_mail.Bootstrap.Users.ensure_service_user ksuite_mail.Actions.◌>>◌
    ksuite_mail.Bootstrap.Users.create_directories ksuite_mail.Actions.for_each
    ksuite_mail.Bootstrap.Host.create_directory ksuite_mail.Bootstrap.Host.change_directory
    ksuite_mail.Bootstrap.Host.call ksuite_mail.Bootstrap.Run.ensure_boundary
    ksuite_mail.Bootstrap.Accounts.build_account ksuite_mail.Settings.validate
    ksuite_mail.Bootstrap.Accounts.add_account ksuite_mail.Bootstrap.Accounts.ensure_account
    ksuite_mail.Bootstrap.Accounts.store_account ksuite_mail.Bootstrap.Files.insert_secret
    ksuite_mail.Bootstrap.Files.load_or_init_secrets ksuite_mail.Bootstrap.Files.load_or_seed_config
    ksuite_mail.Bootstrap.Files.write_config ksuite_mail.Bootstrap.Files.write_secret_store
    ksuite_mail.Bootstrap.Host.alter_file ksuite_mail.Bootstrap.Host.change
    ksuite_mail.Bootstrap.Host.normalize_perms ksuite_mail.Bootstrap.Host.read_file
    ksuite_mail.Bootstrap.Host.write_file_atomic ksuite_mail.Bootstrap.Run.handle_units
    ksuite_mail.Bootstrap.Run.install_units ksuite_mail.Bootstrap.Run.render
    ksuite_mail.Common.contains_text ksuite_mail.Common.same resolve
    ksuite_mail.Secrets.lookup_secret ksuite_mail.Settings.account_problems
    ksuite_mail.Settings.atoi ksuite_mail.Settings.digits_from ksuite_mail.Settings.domain_problems
    ksuite_mail.Settings.field_problems ksuite_mail.Settings.id_problems
    ksuite_mail.Settings.parse_ttl ksuite_mail.Settings.policy_problems
    ksuite_mail.Settings.to_int64 ksuite_mail.Settings.unit_of ksuite_mail.Settings.unsigned
    ksuite_mail.Settings.unsnoc
init_succeeds = refl

abbrev plain : Options
plain = record options { account = none }

run-IsInstalled_example :
    IsInstalled outside (config.write starter) (run outside (some users) true prompter plain bare)
unfolding ksuite_mail.Bootstrap.Users.resolve_access_group
    ksuite_mail.Bootstrap.Users.ensure_service_user ksuite_mail.Bootstrap.Run.render
    ksuite_mail.Strings.trim_space ksuite_mail.Strings.trim_right ksuite_mail.Strings.trim_left
    ksuite_mail.Strings.is_space
run-IsInstalled_example =
    run-IsInstalled outside users prompter plain bare (codes "mail") (config.write starter) true
      (render_service, render_socket (codes "mail")) (λ n. refl) refl refl refl refl refl refl refl

-- With the contents of a first run, and other modes and owners.
abbrev config_file_there : File
config_file_there = record {
  contents = config.write starter;
  mode = 511;
  owner = record { user = codes "me"; group = codes "me" };
}

abbrev secrets_file_there : File
secrets_file_there = record config_file_there { contents = store.write new_secret_store }

abbrev ready : Host
ready = record {
  files = λ q.
      if same q config_file
      then some config_file_there
      else if same q secrets_file
      then some secrets_file_there
      else none;
  directories = λ q. none;
  calls = 0;
}

ready-IsSetUp : IsSetUp outside config_file_there secrets_file_there
unfolding ksuite_mail.Settings.validate ksuite_mail.Strings.trim_right ksuite_mail.Strings.trim_left
    ksuite_mail.Strings.is_space
ready-IsSetUp = record {
  cfg = starter;
  store = new_secret_store;
  decodes = decode-write config starter;
  is_valid = refl;
  decodes_store = decode-write store new_secret_store;
  supported = refl;
}

run-IsRepaired_example :
    IsRepaired config_file_there secrets_file_there
      (run outside (some users) true prompter plain ready)
unfolding ksuite_mail.Bootstrap.Users.resolve_access_group
    ksuite_mail.Bootstrap.Users.ensure_service_user ksuite_mail.Bootstrap.Run.render
    ksuite_mail.Strings.trim_space ksuite_mail.Strings.trim_right ksuite_mail.Strings.trim_left
    ksuite_mail.Strings.is_space same
run-IsRepaired_example =
    run-IsRepaired outside users prompter plain ready (codes "mail") true
      (render_service, render_socket (codes "mail")) config_file_there secrets_file_there
      (λ n. refl) refl refl refl refl refl refl ready-IsSetUp
