-- ===== src/Daemon/Probing.antt =====
-- internal/daemon/daemon.go: what a response to a probe rests on.
use ksuite_mail.Common.{
  ◌≡◌, refl, ap, sym, ◌∙◌, Bool, true, false, not, Option, none, some, List, [], ◌∷◌, Result, ok,
  err, >>=-ok, ok_injective, Text,
}
use ksuite_mail.Strings.{Platform, trim_space, is_empty}
use ksuite_mail.Mail.{Account, Config}
use ksuite_mail.Settings.{Problem, validate}
use ksuite_mail.Secrets.{FileError, LoadError, Store, load, resolve}
use ksuite_mail.Api.{Envelope, ok_with_status, status_ok}
use ksuite_mail.Api.Reports.{ProbeImapRequest, ProbeImapResponse}
use ksuite_mail.Doctor.Sound.{IsConfigured}
use ksuite_mail.Refresh.Source.{Source}
use ksuite_mail.Probe.Run.{run_imap}
use ksuite_mail.Daemon.Access.{account_by_id}
use ksuite_mail.Daemon.Server.{Failure}
use ksuite_mail.Daemon.Diagnostics.{
  Front, check_that, or_else, found_or, read_config, decoded_config, valid_config, load_config,
  stored_credential, found_credential, verify_probe_credential, handle_probe_imap,
}

abbrev pub IsStored : Front → Account → Type 0
IsStored front acct =
    (store : Store) × (secret : Text) × (load front.deployment.secrets_file ≡ ok store)
    × (resolve store acct.password_ref.id ≡ some secret)

module _ (front : Front) where
  valid_lem :
      (cfg c : Config) (problems : List Problem)
      → valid_config front.deployment.problems_text cfg problems ≡ ok c
      → (cfg ≡ c) × (problems ≡ [])
  valid_lem cfg c [] h = (ok_injective h, refl)
  valid_lem cfg c (x ∷ xs) h = cc

  decoded_lem :
      (text : Text) (c : Config) (r : Result Text Config)
      → front.deployment.config_file ≡ ok text
      → front.deployment.decode_config text ≡ r
      → decoded_config front.deployment r ≡ ok c
      → IsConfigured front.deployment c
  decoded_lem text c (err e) f q h = cc
  decoded_lem text c (ok cfg) f q h =
      let (same_cfg, valid) = valid_lem cfg c (validate cfg) h in
      (text, f, q ∙ ap (λ x. ok x) same_cfg, ap validate (sym same_cfg) ∙ valid)

  read_lem :
      (c : Config) (r : Result FileError Text)
      → front.deployment.config_file ≡ r
      → read_config front r ≡ ok c
      → IsConfigured front.deployment c
  read_lem c (err e) f h = cc
  read_lem c (ok text) f h = decoded_lem text c _ f refl h

  load_config-IsConfigured :
      (c : Config) → load_config front ≡ ok c → IsConfigured front.deployment c
  unfolding load_config
  load_config-IsConfigured c h = read_lem c _ refl h

  credential_lem :
      (acct : Account) (r : Result LoadError Store) (u : Unit {0})
      → load front.deployment.secrets_file ≡ r
      → stored_credential acct r ≡ ok u
      → IsStored front acct
  credential_lem acct (err e) u l h = cc
  credential_lem acct (ok store) u l h = found (resolve store acct.password_ref.id) refl h
    where
      found :
          (o : Option Text)
          → resolve store acct.password_ref.id ≡ o
          → found_credential o ≡ ok u
          → IsStored front acct
      found none q h' = cc
      found (some secret) q h' = (store, secret, l, q)

  verify_probe_credential-IsStored :
      (acct : Account) (u : Unit {0})
      → verify_probe_credential front acct ≡ ok u
      → IsStored front acct
  unfolding verify_probe_credential
  verify_probe_credential-IsStored acct u h = credential_lem acct _ u refl h

or_else_ok :
    {E A : Type 0} (f : E → Failure) (r : Result E A) (a : A) → or_else f r ≡ ok a → r ≡ ok a
or_else_ok f (ok b) a h = ap (λ x. ok x) (ok_injective h)
or_else_ok f (err e) a h = cc

found_or-some : {A : Type 0} (f : Failure) (o : Option A) (a : A) → found_or f o ≡ ok a → o ≡ some a
found_or-some f none a h = cc
found_or-some f (some b) a h = ap (λ x. some x) (ok_injective h)

check_that-true : (b : Bool) (f : Failure) (u : Unit {0}) → check_that b f ≡ ok u → b ≡ true
check_that-true true f u h = refl
check_that-true false f u h = cc

-- The response is the report of RunIMAP on the account that the request names, in a valid configuration,
-- and the secret of that account is stored.
abbrev pub IsProbe :
    Platform → Front → Bool → Result Text ProbeImapRequest → Envelope ProbeImapResponse → Type 0
IsProbe p front is_post body env =
    (req : ProbeImapRequest) × (cfg : Config) × (acct : Account) × (src : Option Source) × (is_post
      ≡ true)
    × (body ≡ ok req)
    × (is_empty (trim_space req.account) ≡ false)
    × IsConfigured front.deployment cfg
    × (account_by_id cfg (trim_space req.account) ≡ some acct)
    × IsStored front acct
    × (front.probe_source ≡ ok src)
    × (env ≡ ok_with_status status_ok (run_imap p acct src) [])

not-true : (b : Bool) → not b ≡ true → b ≡ false
not-true true h = cc
not-true false h = refl

-- A probe is answered only to a POST that names a configured account, of a valid configuration, whose
-- secret is stored; the answer is what RunIMAP reports for that account.
pub handle_probe_imap-IsProbe :
    (p : Platform) (front : Front) (is_post : Bool) (body : Result Text ProbeImapRequest)
    (env : Envelope ProbeImapResponse)
    → handle_probe_imap p front is_post body ≡ ok env
    → IsProbe p front is_post body env
unfolding handle_probe_imap
handle_probe_imap-IsProbe p front is_post body env h =
    let (u, post, h1) = >>=-ok {A = Unit {0}} _ _ h in
    let (req, b, h2) = >>=-ok {A = ProbeImapRequest} _ _ h1 in
    let (v, named, h3) = >>=-ok {A = Unit {0}} _ _ h2 in
    let (cfg, c, h4) = >>=-ok {A = Config} _ _ h3 in
    let (acct, a, h5) = >>=-ok {A = Account} _ _ h4 in
    let (w, k, h6) = >>=-ok {A = Unit {0}} _ _ h5 in
    let (src, s, h7) = >>=-ok {A = Option Source} _ _ h6 in
    (
      req,
      cfg,
      acct,
      src,
      check_that-true _ _ u post,
      or_else_ok _ body req b,
      not-true _ (check_that-true _ _ v named),
      load_config-IsConfigured front cfg (or_else_ok _ _ cfg c),
      found_or-some _ _ acct a,
      verify_probe_credential-IsStored front acct w (or_else_ok _ _ w k),
      or_else_ok _ _ src s,
      sym (ok_injective h7),
    )
