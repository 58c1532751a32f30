-- ===== src/Tests/Probing.antt =====
-- Runs of the diagnostics: the doctor, the provider probe and their handlers.
use ksuite_mail.Common.{
  ℕ, ◌-◌, ◌+◌, ◌≤◌, ◌<◌, ◌≡◌, refl, Bool, true, false, Option, none, some, List, [], ◌∷◌, Result,
  ok, err, arith, Text, codes, same, length, ◌==◌, if◌then◌else◌,
}
use ksuite_mail.Common.Ints.{pos}
use ksuite_mail.Mail.{Account, RemoteFolderState}
use ksuite_mail.Secrets.{SecretsFile}
use ksuite_mail.Api.{ok_with_status, status_ok}
use ksuite_mail.Api.Reports.{passed}
use ksuite_mail.Refresh.Source.{Source}
use ksuite_mail.Doctor
use ksuite_mail.Doctor.{Deployment}
use ksuite_mail.Doctor.Sound.{IsDeployed, run-IsDeployed}
use ksuite_mail.Doctor.Secretless.{run_secretless}
use ksuite_mail.Probe.Run.{run_imap}
use ksuite_mail.Probe.ReadState.{scan_limit, last_uids}
use ksuite_mail.Probe.Checklist.{worst, ids, checklist, run_imap-checklist}
use ksuite_mail.Probe.Sound.{IsSound, run_imap-IsSound}
use ksuite_mail.Probe.Window.{IsFound, read_state_fixture_uids-IsFound}
use ksuite_mail.Cache.Writes.{has_uid}
use ksuite_mail.Daemon.Diagnostics.{Front, handle_probe_imap}
use ksuite_mail.Daemon.Probing.{IsProbe, handle_probe_imap-IsProbe}
use ksuite_mail.Tests.Data.{account, config, mailbox, platform, secrets}

abbrev deployment : Deployment
deployment = record {
  config_file = ok (codes "x");
  decode_config = λ t. ok config;
  problems_text = λ ps. [];
  secrets_file = secrets;
  state_dir = ok true;
  writable = true;
}

abbrev changed : SecretsFile
changed = record secrets {
  decode = λ t. some (record { version = pos 1; secrets = (codes "k", codes "other") ∷ [] });
}

-- A source that finds one message in every header, but not for the domain that is nobody's.
abbrev sound : Source
sound = record mailbox {
  search_allowed =
      λ a f header domain scope. if same domain (codes "a.ch") then ok (2 ∷ []) else ok [];
  list_uids = λ a f scope. if scope.max == 0 then ok (1 ∷ 2 ∷ []) else ok (1 ∷ []);
}

-- With a folder for sent mail.
abbrev sender : Account
sender = record account { folders = codes "INBOX" ∷ codes "Sent" ∷ [] }

abbrev state : RemoteFolderState
state = record {
  uidvalidity = 1;
  uidnext = 3;
  highest_mod_seq = pos 5;
  read_only = true;
  selection_mode = [];
}

abbrev front : Front
front = record { deployment = deployment; file_text = λ e. []; probe_source = ok none }

run-IsDeployed_example : IsDeployed deployment
unfolding Doctor.run Doctor.check_config ksuite_mail.Strings.trim_right
    ksuite_mail.Strings.trim_left ksuite_mail.Strings.is_space ksuite_mail.Common.contains_text same
    Doctor.check_secrets Doctor.check_credentials Doctor.check_cache
run-IsDeployed_example = run-IsDeployed deployment refl

run_secretless_example :
    Doctor.run (record deployment { secrets_file = changed }) ≡ Doctor.run deployment
unfolding ksuite_mail.Secrets.load ksuite_mail.Secrets.resolve ksuite_mail.Secrets.lookup_secret
run_secretless_example = run_secretless deployment changed (λ id. ground arith)

run_imap-checklist_example :
    let r = run_imap platform account (some sound) in
    (ids r.checks ≡ checklist) × (r.status ≡ worst passed r.checks)
run_imap-checklist_example = run_imap-checklist platform account (some sound)

run_imap-IsSound_example : (src : Source) × (some sound ≡ some src) × IsSound platform sender src
unfolding run_imap ksuite_mail.Probe.Checks.aggregate_probe_status
    ksuite_mail.Probe.Checks.first_folder ksuite_mail.Strings.trim_right
    ksuite_mail.Strings.trim_left ksuite_mail.Strings.is_space ksuite_mail.Probe.Run.probe_folder
    ksuite_mail.Probe.Strategy.probe_uid_behavior ksuite_mail.Probe.Strategy.check_refresh_strategy
    ksuite_mail.Probe.Strategy.supports_condstore ksuite_mail.Probe.Strategy.has_capability same
    ksuite_mail.Probe.Headers.probe_domain_headers ksuite_mail.Probe.Headers.probe_domains
    ksuite_mail.Probe.Headers.probe_headers ksuite_mail.Probe.Headers.probe_header
    ksuite_mail.Probe.ReadState.read_state_prerequisites_met
    ksuite_mail.Probe.ReadState.probe_read_state ksuite_mail.Strings.contains
    ksuite_mail.Strings.has_prefix
run_imap-IsSound_example = run_imap-IsSound platform sender (some sound) refl

read_state_fixture_uids-IsFound_example :
    (length (last_uids sound sender (codes "INBOX") (2 ∷ [])) ≤ scan_limit)
    × ((uid : ℕ)
        → has_uid (last_uids sound sender (codes "INBOX") (2 ∷ [])) uid ≡ true
        → ((0 < uid) × (uid < 3) × (3 ≤ uid + scan_limit))
          × IsFound platform sound sender (codes "INBOX") uid)
unfolding ksuite_mail.Probe.ReadState.read_state_fixture_uids ksuite_mail.Strings.trim_right
    ksuite_mail.Strings.trim_left ksuite_mail.Strings.is_space same
    ksuite_mail.Probe.Headers.probe_domain_headers ksuite_mail.Probe.Headers.probe_domains
    ksuite_mail.Probe.Headers.probe_headers ksuite_mail.Probe.Headers.probe_header
    ksuite_mail.Strings.contains ksuite_mail.Strings.has_prefix
read_state_fixture_uids-IsFound_example =
    read_state_fixture_uids-IsFound platform sound sender (codes "INBOX") state (2 ∷ []) refl
      (omega arith) refl

handle_probe_imap-IsProbe_example :
    IsProbe platform front true
      (ok (record { account = codes "work" }))
      (ok_with_status status_ok (run_imap platform account none) [])
unfolding handle_probe_imap ksuite_mail.Strings.trim_space ksuite_mail.Strings.trim_right
    ksuite_mail.Strings.trim_left ksuite_mail.Strings.is_space
    ksuite_mail.Daemon.Diagnostics.load_config ksuite_mail.Settings.validate
    ksuite_mail.Common.contains_text same ksuite_mail.Daemon.Access.find_account
    ksuite_mail.Daemon.Diagnostics.verify_probe_credential ksuite_mail.Secrets.load
    ksuite_mail.Secrets.resolve
handle_probe_imap-IsProbe_example =
    handle_probe_imap-IsProbe platform front true (ok (record { account = codes "work" }))
      (ok_with_status status_ok (run_imap platform account none) []) refl
