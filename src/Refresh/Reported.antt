-- ===== src/Refresh/Reported.antt =====
-- internal/refresh/refresh.go: what Refresh reports of the folders that it could not refresh.
use ksuite_mail.Common.{
  ℕ, ◌≡◌, refl, sym, ap, subst, ◌∙◌, true, false, not, Bool-cases, inl, inr, Option, none, some,
  List, [], ◌∷◌, ◌++◌, Result, ok, err, Text, ok_injective,
}
use ksuite_mail.Strings.{Platform, is_empty}
use ksuite_mail.Mail.{Account, Config}
use ksuite_mail.Actions.Keeps.{Yields, Yields-pure, Yields-bind-yields}
use ksuite_mail.Cache.Session.{Repository}
use ksuite_mail.Refresh.Source.{Source, RefreshError, local_cache, remote, panicked}
use ksuite_mail.Refresh.Cycle.{
  Warning, RefreshResult, RefreshOptions, Progress, note_outcome, refresh_one, refresh_folders,
  refresh_accounts, summarize, start, finish_cycle, refresh,
}

-- A folder failed exactly if there is a warning.
abbrev IsNoted : Progress → Type 0
IsNoted progress = progress.all_success ≡ is_empty progress.warnings

-- The result is partial exactly if it has a warning, and the remote source is called sound only without
-- one.
pub record IsReported (res : RefreshResult) : Type 0 where
  pub warned : res.partial ≡ not (is_empty res.warnings)
  pub trusted : res.meta.remote_ok ≡ true → res.warnings ≡ []

is_empty-snoc : (ws : List Warning) (w : Warning) → is_empty (ws ++ w ∷ []) ≡ false
is_empty-snoc [] w = refl
is_empty-snoc (x ∷ xs) w = refl

empty_lem : (ws : List Warning) → is_empty ws ≡ true → ws ≡ []
empty_lem [] h = refl
empty_lem (w ∷ ws) h = cc

note_outcome-Yields :
    (account : Account) (folder : Text) (progress : Progress) (res : Result RefreshError (Unit {0}))
    → IsNoted progress
    → Yields (note_outcome account folder progress res) IsNoted
unfolding note_outcome
note_outcome-Yields account folder progress (ok u) n = record {
  at = λ r a h. subst IsNoted (ok_injective h) n;
}
note_outcome-Yields account folder progress (err (local_cache e)) n = record { at = λ r a h. cc }
note_outcome-Yields account folder progress (err panicked) n = record { at = λ r a h. cc }
note_outcome-Yields account folder progress (err (remote e)) n = record {
  at = λ r a h. subst IsNoted (ok_injective h) (sym (is_empty-snoc progress.warnings _));
}

module _ (p : Platform) (src : Source) (opts : RefreshOptions) where
  refresh_one-Yields :
      (account : Account) (folder : Text) (progress : Progress)
      → IsNoted progress
      → Yields (refresh_one p src opts account folder progress) IsNoted
  unfolding refresh_one
  refresh_one-Yields account folder progress n = record {
    at = λ r a h. (note_outcome-Yields account folder progress _ n).at _ a h;
  }

  refresh_folders-Yields :
      (account : Account) (folders : List Text) (progress : Progress)
      → IsNoted progress
      → Yields (refresh_folders p src opts account folders progress) IsNoted
  unfolding refresh_folders
  refresh_folders-Yields account [] progress n = Yields-pure IsNoted progress n
  refresh_folders-Yields account (folder ∷ folders) progress n =
      Yields-bind-yields IsNoted IsNoted (refresh_one p src opts account folder progress) _
        (refresh_one-Yields account folder progress n)
        λ progress' n'. refresh_folders-Yields account folders progress' n'

  refresh_accounts-Yields :
      (accounts : List Account) (progress : Progress)
      → IsNoted progress
      → Yields (refresh_accounts p src opts accounts progress) IsNoted
  unfolding refresh_accounts
  refresh_accounts-Yields [] progress n = Yields-pure IsNoted progress n
  refresh_accounts-Yields (account ∷ accounts) progress n =
      Yields-bind-yields IsNoted IsNoted
        (refresh_folders p src opts account account.folders progress) _
        (refresh_folders-Yields account account.folders progress n)
        λ progress' n'. refresh_accounts-Yields accounts progress' n'

summarize-IsReported :
    (now : ℕ) (progress : Progress) (r : Repository)
    → IsNoted progress
    → IsReported (summarize now progress r).0
unfolding summarize
summarize-IsReported now progress r n = elim (Bool-cases progress.any_success) [
  | inl e ↦
      rw e (record {
        warned = ap not n;
        trusted = λ sound. empty_lem progress.warnings (sym n ∙ sound);
      })
  | inr e ↦ rw e (record { warned = ap not n; trusted = λ sound. cc })
]

-- A result of Refresh, with a source or without one, is partial exactly if it has a warning, and says
-- that the remote source is sound only if it has none.
pub refresh-IsReported :
    (p : Platform) (cfg : Config) (src : Option Source) (opts : RefreshOptions) (r : Repository)
    (res : RefreshResult)
    → (refresh p cfg src opts r).0 ≡ ok res
    → IsReported res
unfolding refresh
refresh-IsReported p cfg none opts r res h =
    subst IsReported (ok_injective h) (record { warned = refl; trusted = λ sound. refl })
refresh-IsReported p cfg (some src) opts r res h = elim (Bool-cases (is_empty cfg.accounts)) [
  | inl e ↦
      subst IsReported (ok_injective (rw e at h))
        (record { warned = refl; trusted = λ sound. refl })
  | inr e ↦
      finished (refresh_accounts p src opts cfg.accounts start r)
        ((refresh_accounts-Yields p src opts cfg.accounts start refl).at r) (rw e at h)
]
  where
    finished :
        (run : Result RefreshError Progress × Repository)
        → ((progress : Progress) → run.0 ≡ ok progress → IsNoted progress)
        → (finish_cycle opts.now run).0 ≡ ok res
        → IsReported res
    finished (ok progress, r') n h =
        subst IsReported (ok_injective h)
          (summarize-IsReported opts.now progress r' (n progress refl))
    finished (err e, r') n h = cc
