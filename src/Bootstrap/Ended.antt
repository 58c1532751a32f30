-- ===== src/Bootstrap/Ended.antt =====
-- internal/bootstrap/bootstrap.go: how Run ends, with success or with an error at any call.
use ksuite_mail.Common.{◌≡◌, Bool, true, false, Option, none, some, ok, Text, same}
use ksuite_mail.Actions.Triples.{
  Ends, Triple, Triple-weaken, Triple-pure, Triple-lift, Triple-bind, Triple-then,
}
use ksuite_mail.Layout.{service_unit, socket_unit}
use ksuite_mail.Bootstrap.Host.{Host, Outside}
use ksuite_mail.Bootstrap.Users.{UserProvisioner, resolve_access_group, ensure_service_user}
use ksuite_mail.Bootstrap.Accounts.{AccountSeed, Prompter}
use ksuite_mail.Bootstrap.Run.{
  Options, unit_path, render, install_units, handle_units, run_with, run,
}
use ksuite_mail.Bootstrap.Views.{
  View, view, Of, written, call-Of, write_file_atomic-Of, create_directories-Of,
}
use ksuite_mail.Bootstrap.Bound.{IsCodec, IsBound}
use ksuite_mail.Bootstrap.Whole.{Safe, Reached, ensure_boundary-Of}

module _ (o : Outside) (codec : IsCodec o) where
  -- A unit file is neither of the two files.
  service-IsBound :
      (text : Text) (v : View) → IsBound o v → IsBound o (written (unit_path service_unit) text v)
  unfolding same
  service-IsBound text v b = record { bound = λ t cfg r d. b.bound t cfg r d }

  socket-IsBound :
      (text : Text) (v : View) → IsBound o v → IsBound o (written (unit_path socket_unit) text v)
  unfolding same
  socket-IsBound text v b = record { bound = λ t cfg r d. b.bound t cfg r d }

  service-Reached :
      (prompt : Prompter) (seed : Option AccountSeed) (text : Text) (v : View)
      → Reached o codec prompt seed v
      → Reached o codec prompt seed (written (unit_path service_unit) text v)
  unfolding same
  service-Reached prompt none text v b = service-IsBound text v b
  service-Reached prompt (some seed) text v (b, (secret, a, (c, d, s))) =
      (service-IsBound text v b, (secret, a, (service-IsBound text v c, d, s)))

  socket-Reached :
      (prompt : Prompter) (seed : Option AccountSeed) (text : Text) (v : View)
      → Reached o codec prompt seed v
      → Reached o codec prompt seed (written (unit_path socket_unit) text v)
  unfolding same
  socket-Reached prompt none text v b = socket-IsBound text v b
  socket-Reached prompt (some seed) text v (b, (secret, a, (c, d, s))) =
      (socket-IsBound text v b, (secret, a, (socket-IsBound text v c, d, s)))

  module _ (prompt : Prompter) (seed : Option AccountSeed) where
    abbrev Here : Host → Type 0
    Here = Of (Reached o codec prompt seed)

    safe : (h : Host) → Here h → Safe o codec h
    safe h v = of seed v
      where
        of : (s : Option AccountSeed) → Of (Reached o codec prompt s) h → Safe o codec h
        of none v' = v'
        of (some x) v' = v'.0

    install_units-Of :
        (install : Bool) (units : Text × Text)
        → Triple Here (install_units o install units) (λ _. Here) (Safe o codec)
    unfolding install_units
    install_units-Of false units = Triple-pure Here (λ _. Here) (Safe o codec) _ (λ h v. v)
    install_units-Of true (service, socket) =
        let V = Reached o codec prompt seed in
        Triple-weaken Here Here (λ _. Here) (λ _. Here) Here (Safe o codec) _ (λ h v. v)
          (λ _ h v. v) safe
          (Triple-then Here Here (λ _. Here) Here _ _ (call-Of o V)
            (Triple-then Here Here (λ _. Here) Here _ _
              (write_file_atomic-Of o V V (unit_path service_unit) service _
                (service-Reached prompt seed service))
              (Triple-then Here Here (λ _. Here) Here _ _
                (write_file_atomic-Of o V V (unit_path socket_unit) socket _
                  (socket-Reached prompt seed socket))
                (Triple-pure Here (λ _. Here) Here _ (λ h v. v)))))

    handle_units-Of :
        (opts : Options) (access_group : Text)
        → Triple Here (handle_units o opts access_group) (λ _. Here) (Safe o codec)
    unfolding handle_units
    handle_units-Of opts access_group =
        Triple-bind Here (λ u h. Here h × (render access_group ≡ ok u)) (λ _. Here) (Safe o codec) _
          _ (Triple-lift Here (Safe o codec) _ safe)
          λ units.
            Triple-weaken Here _ (λ _. Here) (λ _. Here) (Safe o codec) (Safe o codec) _
              (λ h v. v.0) (λ _ h v. v) (λ h v. v) (install_units-Of opts.install_units units)

  run_with-Of :
      (users : UserProvisioner) (prompt : Prompter) (opts : Options)
      → Triple
          (Safe o codec)
          (run_with o users prompt opts)
          (λ _. Of (Reached o codec prompt opts.account))
          (Safe o codec)
  unfolding run_with
  run_with-Of users prompt opts =
      let S = Safe o codec in
      let T = Of (Reached o codec prompt opts.account) in
      Triple-bind S
        (λ g h. S h × (resolve_access_group users opts.access_group opts.invoking_user ≡ ok g))
        (λ _. T) S _ _ (Triple-lift S S _ (λ h v. v))
        λ group.
          Triple-bind _ (λ u h. S h × (ensure_service_user users ≡ ok u)) (λ _. T) S _ _
            (Triple-weaken S _ _ (λ u h. S h × (ensure_service_user users ≡ ok u)) S S _
              (λ h v. v.0) (λ _ h v. v) (λ h v. v)
              (Triple-lift S S (ensure_service_user users) (λ h v. v)))
            λ created.
              Triple-then _ S (λ _. T) S _ _
                (Triple-weaken S _ (λ _. S) (λ _. S) S S _ (λ h v. v.0) (λ _ h v. v) (λ h v. v)
                  (create_directories-Of o (IsBound o)))
                (Triple-bind S (λ _. T) (λ _. T) S _ _
                  (ensure_boundary-Of o codec prompt opts.account)
                  λ files.
                    Triple-bind T (λ _. T) (λ _. T) S _ _
                      (handle_units-Of prompt opts.account opts group)
                      λ installed. Triple-pure T (λ _. T) S _ (λ h v. v))

  -- Wherever a run of init fails, the configuration file, if it decodes, stays valid and each of its
  -- accounts keeps its secret in the secrets file, where that was so before, as it is on a new host. A
  -- run that succeeds with an account has it in the configuration, and the secret that was entered for
  -- it is in the secrets file.
  pub run-Reached :
      (users : Option UserProvisioner) (chowner : Bool) (prompt : Prompter) (opts : Options)
      (h : Host)
      → IsBound o (view h)
      → Ends
          (λ _ h'. Reached o codec prompt opts.account (view h'))
          (λ h'. IsBound o (view h'))
          (run o users chowner prompt opts h)
  unfolding run
  run-Reached none chowner prompt opts h b = b
  run-Reached (some users) false prompt opts h b = b
  run-Reached (some users) true prompt opts h b = (run_with-Of users prompt opts).at h b
