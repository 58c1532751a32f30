-- ===== src/Imap/Composed.antt =====
-- internal/refresh/refresh.go with internal/imapadapter/adapter.go: a refresh from the live source.
use ksuite_mail.Common.{ℕ, ◌≡◌, ◌⊎◌, inl, inr, some, ok, err, Result, List, [], ◌∷◌, All, Text}
use ksuite_mail.Strings.{Platform}
use ksuite_mail.Mail.{Account, UidRange, MessageEnvelope, Config, CachedMessage}
use ksuite_mail.Secrets.{SecretsFile}
use ksuite_mail.Cache.Session.{Repository}
use ksuite_mail.Cache.Contents.{Content, content}
use ksuite_mail.Refresh.Cycle.{RefreshOptions, refresh}
use ksuite_mail.Refresh.Cleared.{IsKnown, IsApproved, refresh-IsApproved}
use ksuite_mail.Imap.Sessions.{Client}
use ksuite_mail.Imap.Wire.{Wire}
use ksuite_mail.Refresh.Source.{SourceError}
use ksuite_mail.Imap.Methods.{live_source}

module _ (p : Platform) (secrets : SecretsFile) (client : Client) (range_text : ℕ × ℕ → Text)
    (peer : Account → Text → Text → Text → UidRange → Wire) where
  nothing-IsApproved :
      (cfg : Config) (c : Content)
      → ¬ IsApproved p (live_source p secrets client range_text peer) cfg c
  unfolding live_source
  nothing-IsApproved cfg c
        (
          account,
          folder,
          env,
          body,
          reason,
          uidvalidity,
          i,
          j,
          (uids, envs, e, k),
          cleared,
          fetched,
          same_content,
        ) =
      refused e
    where
      refused :
          {e : SourceError} {envs : List MessageEnvelope}
          → ◌≡◌ {A = Result SourceError (List MessageEnvelope)} (err e) (ok envs)
          → ⊥
      refused e = cc

  All-IsKnown :
      (cfg : Config) (old new : List CachedMessage)
      → All
          (λ row.
            IsKnown old (content row)
            ⊎ IsApproved p (live_source p secrets client range_text peer) cfg (content row))
          new
      → All (λ row. IsKnown old (content row)) new
  All-IsKnown cfg old [] h = tt
  All-IsKnown cfg old (row ∷ rows) (inl k, h) = (k, All-IsKnown cfg old rows h)
  All-IsKnown cfg old (row ∷ rows) (inr a, h) = absurd (nothing-IsApproved cfg _ a)

  -- With the live source as it is, which fetches no headers and no envelopes, Refresh stores no message:
  -- the content of each cached row was cached before, whatever the server answers.
  pub refresh-IsKnown :
      (cfg : Config) (opts : RefreshOptions) (r : Repository)
      → All
          (λ row. IsKnown r.messages (content row))
          (refresh p cfg (some (live_source p secrets client range_text peer)) opts r).1.messages
  refresh-IsKnown cfg opts r = All-IsKnown cfg r.messages _ (refresh-IsApproved p cfg _ opts r)
