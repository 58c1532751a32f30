-- ===== src/Tests/Codec.antt =====
-- A codec of the configuration and of the secrets, by lists of numbers that tell their lengths. It
-- stands for TOML and JSON in the runs of init.
use ksuite_mail.Common.{
  ℕ, zero, suc, ◌≡◌, refl, ap, sym, ◌∙◌, Bool, true, false, Option, none, some, List, [], ◌∷◌, ◌++◌,
  Text, length,
}
use mathlib.Core.List.{append_assoc, append-nil}
use ksuite_mail.Common.Ints.{ℤ, pos, negsuc}
use ksuite_mail.Mail.{PasswordRef, Account, Config}
use ksuite_mail.Secrets.{Store}

pub record Codec (A : Type 0) : Type 0 where
  pub write : A → Text
  pub read : Text → Option (A × Text)
  pub reads : (a : A) (rest : Text) → read (write a ++ rest) ≡ some (a, rest)

abbrev first : {A : Type 0} → Option (A × Text) → Option A
first none = none
first (some (a, rest)) = some a

abbrev pub decode : {A : Type 0} → Codec A → Text → Option A
decode c t = first (c.read t)

pub decode-write : {A : Type 0} → (c : Codec A) (a : A) → decode c (c.write a) ≡ some a
decode-write c a =
    ap (λ t. first (c.read t)) (sym (append-nil (c.write a))) ∙ ap first (c.reads a [])

abbrev read_number : Text → Option (ℕ × Text)
read_number [] = none
read_number (n ∷ rest) = some (n, rest)

abbrev number : Codec ℕ
number = record { write = λ n. n ∷ []; read = read_number; reads = λ n rest. refl }

module _ {A : Type 0} {B : Type 0} where
  abbrev image : (A → B) → Option (A × Text) → Option (B × Text)
  image f none = none
  image f (some (a, rest)) = some (f a, rest)

  -- Along a function with a right inverse.
  abbrev along : (f : A → B) (g : B → A) → ((b : B) → f (g b) ≡ b) → Codec A → Codec B
  along f g e c = record {
    write = λ b. c.write (g b);
    read = λ t. image f (c.read t);
    reads = λ b rest. ap (image f) (c.reads (g b) rest) ∙ ap (λ x. some (x, rest)) (e b);
  }

  abbrev with_first : A → Option (B × Text) → Option ((A × B) × Text)
  with_first a none = none
  with_first a (some (b, rest)) = some ((a, b), rest)

  abbrev read_second : Codec B → Option (A × Text) → Option ((A × B) × Text)
  read_second d none = none
  read_second d (some (a, rest)) = with_first a (d.read rest)

  abbrev pair : Codec A → Codec B → Codec (A × B)
  pair c d = record {
    write = λ (a, b). c.write a ++ d.write b;
    read = λ t. read_second d (c.read t);
    reads = λ (a, b) rest.
        ap (λ t. read_second d (c.read t)) (append_assoc (c.write a) (d.write b) rest)
        ∙ ap (read_second d) (c.reads a (d.write b ++ rest))
        ∙ ap (with_first a) (d.reads b rest);
  }

module _ {A : Type 0} (c : Codec A) where
  abbrev write_all : List A → Text
  write_all [] = []
  write_all (a ∷ rest) = c.write a ++ write_all rest

  abbrev with_head : A → Option (List A × Text) → Option (List A × Text)
  with_head a none = none
  with_head a (some (xs, rest)) = some (a ∷ xs, rest)

  abbrev continued : (Text → Option (List A × Text)) → Option (A × Text) → Option (List A × Text)
  continued more none = none
  continued more (some (a, rest)) = with_head a (more rest)

  unfoldable pub read_many : ℕ → Text → Option (List A × Text)
  read_many zero t = some ([], t)
  read_many (suc n) t = continued (read_many n) (c.read t)

  pub reads_many :
      (xs : List A) (rest : Text) → read_many (length xs) (write_all xs ++ rest) ≡ some (xs, rest)
  unfolding read_many
  reads_many [] rest = refl
  reads_many (x ∷ xs) rest =
      ap (λ t. continued (read_many (length xs)) (c.read t))
        (append_assoc (c.write x) (write_all xs) rest)
      ∙ ap (continued (read_many (length xs))) (c.reads x (write_all xs ++ rest))
      ∙ ap (with_head x) (reads_many xs rest)

  abbrev read_counted : Text → Option (List A × Text)
  read_counted [] = none
  read_counted (n ∷ rest) = read_many n rest

  abbrev list : Codec (List A)
  list = record { write = λ xs. length xs ∷ write_all xs; read = read_counted; reads = reads_many }

abbrev text : Codec Text
text = list number

abbrev number_of_int : ℤ → ℕ × ℕ
number_of_int (pos n) = (0, n)
number_of_int (negsuc n) = (1, n)

abbrev int_of_number : ℕ × ℕ → ℤ
int_of_number (zero, n) = pos n
int_of_number (suc k, n) = negsuc n

pub int_of_number_lem : (i : ℤ) → int_of_number (number_of_int i) ≡ i
int_of_number_lem (pos n) = refl
int_of_number_lem (negsuc n) = refl

abbrev int : Codec ℤ
int = along int_of_number number_of_int int_of_number_lem (pair number number)

abbrev number_of_flag : Option Bool → ℕ
number_of_flag none = 0
number_of_flag (some true) = 1
number_of_flag (some false) = 2

abbrev flag_of_number : ℕ → Option Bool
flag_of_number zero = none
flag_of_number (suc zero) = some true
flag_of_number (suc (suc n)) = some false

pub flag_of_number_lem : (b : Option Bool) → flag_of_number (number_of_flag b) ≡ b
flag_of_number_lem none = refl
flag_of_number_lem (some true) = refl
flag_of_number_lem (some false) = refl

abbrev flag : Codec (Option Bool)
flag = along flag_of_number number_of_flag flag_of_number_lem number

abbrev password_ref : Codec PasswordRef
password_ref =
    along (λ (a, (b, c)). record { source = a; provider = b; id = c })
      (λ (r : PasswordRef). (r.source, (r.provider, r.id))) (λ r. refl) (pair text (pair text text))

abbrev names : Codec (Text × (Text × Text))
names = pair text (pair text text)

abbrev fields : Codec (
    (Text × (Text × Text))
    × ((ℤ × Option Bool) × (Text × (PasswordRef × (Text × (List Text × List Text))))))
fields = pair names (
    pair (pair int flag) (pair text (pair password_ref (pair text (pair (list text) (list text))))))

abbrev account : Codec Account
account =
    along
      (λ ((id, (email, host)), ((port, tls), (username, (ref, (policy, (domains, folders)))))).
        record {
          id = id;
          email = email;
          host = host;
          port = port;
          tls = tls;
          username = username;
          password_ref = ref;
          policy = policy;
          domains = domains;
          folders = folders;
        })
      (λ (a : Account). (
        (a.id, (a.email, a.host)),
        ((a.port, a.tls), (a.username, (a.password_ref, (a.policy, (a.domains, a.folders))))),
      ))
      (λ a. refl) fields

abbrev pub config : Codec Config
config =
    along
      (λ (limit, (ttl, accounts)). record {
        default_limit = limit;
        cache_ttl = ttl;
        accounts = accounts;
      })
      (λ (c : Config). (c.default_limit, (c.cache_ttl, c.accounts))) (λ c. refl)
      (pair int (pair text (list account)))

abbrev pub store : Codec Store
store =
    along (λ (version, secrets). record { version = version; secrets = secrets })
      (λ (s : Store). (s.version, s.secrets)) (λ s. refl) (pair int (list (pair text text)))
