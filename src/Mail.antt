-- ===== src/Mail.antt =====
-- internal/config/config.go, internal/mail/types.go and internal/mail/source.go: the configuration
-- and the mailbox objects that the other components share. A UID is a uint32, a UIDVALIDITY and a
-- UIDNEXT are uint64, a time is the number of nanoseconds since the zero time of Go.
pub mod Decimals
use ksuite_mail.Common.{
  ℕ, zero, suc, ◌+◌, ◌/◌, ◌%◌, Bool, Option, List, [], ◌∷◌, ◌++◌, Text, codes, ◌==◌, if◌then◌else◌,
}
use ksuite_mail.Strings.{Platform}
use ksuite_mail.Common.Ints.{ℤ}

pub record PasswordRef : Type 0 where
  pub source : Text
  pub provider : Text
  pub id : Text

pub record Account : Type 0 where
  pub id : Text
  pub email : Text
  pub host : Text
  pub port : ℤ
  pub tls : Option Bool
  pub username : Text
  pub password_ref : PasswordRef
  pub policy : Text
  pub domains : List Text
  pub folders : List Text

-- config.Mail with config.Config, which has it for its one field.
pub record Config : Type 0 where
  pub default_limit : ℤ
  pub cache_ttl : Text
  pub accounts : List Account

abbrev pub policy_full : Text
policy_full = codes "full"

abbrev pub policy_domain : Text
policy_domain = codes "domain"

pub record UidRange : Type 0 where
  pub min : ℕ
  pub max : ℕ

pub record RemoteFolderState : Type 0 where
  pub uidvalidity : ℕ
  pub uidnext : ℕ
  pub highest_mod_seq : ℤ
  pub read_only : Bool
  pub selection_mode : Text

pub record MessageHeaders : Type 0 where
  pub uid : ℕ
  pub from : Text
  pub to : Text
  pub cc : Text
  pub bcc : Text

pub record MessageEnvelope : Type 0 where
  pub uid : ℕ
  pub message_id : Text
  pub thread_key : Text
  pub subject : Text
  pub from : Text
  pub to : Text
  pub cc : Text
  pub bcc : Text
  pub date : ℕ
  pub flags : Text
  pub snippet : Text
  pub body_preview : Text
  pub has_attachments : Bool
  pub content_hash : Text

pub record CachedMessage : Type 0 where
  pub id : Text
  pub account_id : Text
  pub folder : Text
  pub uidvalidity : ℕ
  pub uid : ℕ
  pub message_id : Text
  pub thread_key : Text
  pub subject : Text
  pub from : Text
  pub to : Text
  pub cc : Text
  pub bcc : Text
  pub date : ℕ
  pub flags : Text
  pub has_attachments : Bool
  pub snippet : Text
  pub body_text : Text
  pub visible_reason : Text
  pub content_hash : Text
  pub first_loaded_at : ℕ
  pub last_loaded_or_checked : ℕ

-- A number in decimal digits; a uint64 has 20 at most.
unfoldable pub drop_leading_zeros : Text → Text
drop_leading_zeros [] = codes "0"
drop_leading_zeros (d ∷ ds) = if d == b'0' then drop_leading_zeros ds else d ∷ ds

unfoldable pub decimal_digits : ℕ → ℕ → Text
decimal_digits zero k = []
decimal_digits (suc n) k = decimal_digits n (k / 10) ++ (b'0' + k % 10) ∷ []

unfoldable pub decimal : ℕ → Text
unfolding drop_leading_zeros decimal_digits
decimal k = drop_leading_zeros (decimal_digits 20 k)

-- The text that PublicID hashes.
unfoldable pub raw_id : Text → Text → ℕ → ℕ → Text
unfolding decimal
raw_id account_id folder uidvalidity uid =
    account_id ++ b'|' ∷ (folder ++ b'|' ∷ (decimal uidvalidity ++ b'|' ∷ decimal uid))

unfoldable pub public_id : Platform → Text → Text → ℕ → ℕ → Text
unfolding raw_id
public_id p account_id folder uidvalidity uid =
    codes "msg_" ++ p.digest (raw_id account_id folder uidvalidity uid)
