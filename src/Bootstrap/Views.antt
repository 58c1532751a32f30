-- ===== src/Bootstrap/Views.antt =====
-- internal/bootstrap: what the calls of the operating system do to the contents of the files.
use mathlib.Core.Path.{fun_ext}
use ksuite_mail.Common.{
  ℕ, ◌+◌, ◌≡◌, refl, ap, sym, ◌∙◌, subst, inl, inr, Bool, true, false, Bool-cases, Option, none,
  some, List, [], ◌∷◌, Result, ok, err, if◌then◌else◌, Text, same, same→eq,
}
use ksuite_mail.Actions.{◌>>=◌, ◌>>◌, for_each}
use ksuite_mail.Actions.Triples.{Ends, Triple, Triple-then}
use ksuite_mail.Layout.{FileSpec, DirSpec, dirs}
use ksuite_mail.Bootstrap.Host.{
  File, Directory, Host, BootError, Boot, Outside, outcome_of, put_file, call, change,
  write_file_atomic, read_of, read_file, alter_in, alter_file, normalize_perms, change_directory,
  create_directory,
}
use ksuite_mail.Bootstrap.Users.{create_directories}
use ksuite_mail.Bootstrap.Files.{is_missing, or_fresh}

abbrev pub View : Type 0
View = Text → Option Text

abbrev contents_of : Option File → Option Text
contents_of none = none
contents_of (some f) = some f.contents

abbrev pub view : Host → View
view h = λ q. contents_of (h.files q)

-- The contents once a text is written at a path.
abbrev pub written : Text → Text → View → View
written path contents v = λ q. if same q path then some contents else v q

-- A condition on the contents.
abbrev pub Of : (View → Type 0) → Host → Type 0
Of V h = V (view h)

module _ (o : Outside) (V : View → Type 0) where
  outcome-Ends : (b : Bool) (h : Host) → Of V h → Ends (λ _. Of V) (Of V) (outcome_of b, h)
  outcome-Ends true h v = v
  outcome-Ends false h v = v

  pub call-Of : Triple (Of V) (call o) (λ _. Of V) (Of V)
  unfolding call
  call-Of = record {
    at = λ h v. outcome-Ends (o.fails h.calls) (record h { calls = h.calls + 1 }) v;
  }

  view_put :
      (path contents : Text) (f : File) (h : Host)
      → f.contents ≡ contents
      → written path contents (view h) ≡ view (record h { files = put_file path (some f) h.files })
  view_put path contents f h e = fun_ext λ q. at q (same q path)
    where
      at :
          (q : Text) (b : Bool)
          → (if b then some contents else contents_of (h.files q))
            ≡ contents_of (if b then some f else h.files q)
      at q true = ap (λ t. some t) (sym e)
      at q false = refl

  view_kept :
      (path : Text) (f g : File) (h : Host)
      → h.files path ≡ some f
      → g.contents ≡ f.contents
      → view h ≡ view (record h { files = put_file path (some g) h.files })
  view_kept path f g h e k = fun_ext λ q. elim (Bool-cases (same q path)) [
    | inl here ↦ rw here (
        ap (λ t. contents_of (h.files t)) (same→eq q path here)
        ∙ (ap contents_of e ∙ ap (λ t. some t) (sym k)))
    | inr there ↦ rw there refl
  ]

  alter_in-Of :
      (path : Text) (f : File → File) (x : Option File) (h : Host)
      → ((g : File) → (f g).contents ≡ g.contents)
      → h.files path ≡ x
      → Of V h
      → Ends (λ _. Of V) (Of V) (alter_in o path f x h)
  alter_in-Of path f none h k e v = v
  alter_in-Of path f (some g) h k e v = subst V (view_kept path g (f g) h e (k g)) v

  pub alter_file-Of :
      (path : Text) (f : File → File)
      → ((g : File) → (f g).contents ≡ g.contents)
      → Triple (Of V) (alter_file o path f) (λ _. Of V) (Of V)
  unfolding alter_file
  alter_file-Of path f k =
      Triple-then (Of V) (Of V) (λ _. Of V) (Of V) _ _ call-Of
        (record { at = λ h v. alter_in-Of path f (h.files path) h k refl v })

  pub normalize_perms-Of :
      (spec : FileSpec) → Triple (Of V) (normalize_perms o spec) (λ _. Of V) (Of V)
  unfolding normalize_perms
  normalize_perms-Of spec =
      Triple-then (Of V) (Of V) (λ _. Of V) (Of V) _ _ (alter_file-Of spec.path _ (λ g. refl))
        (alter_file-Of spec.path _ (λ g. refl))

  pub change_directory-Of :
      (d : DirSpec) (f : Option Directory → Directory)
      → Triple (Of V) (change_directory o d f) (λ _. Of V) (Of V)
  unfolding change_directory
  change_directory-Of d f =
      Triple-then (Of V) (Of V) (λ _. Of V) (Of V) _ _ call-Of (record { at = λ h v. v })

  create_directory-Of : (d : DirSpec) → Triple (Of V) (create_directory o d) (λ _. Of V) (Of V)
  unfolding create_directory
  create_directory-Of d =
      Triple-then (Of V) (Of V) (λ _. Of V) (Of V) _ _ (change_directory-Of d _)
        (Triple-then (Of V) (Of V) (λ _. Of V) (Of V) _ _ (change_directory-Of d _)
          (change_directory-Of d _))

  directories-Of :
      (ds : List DirSpec) → Triple (Of V) (for_each tt (create_directory o) ds) (λ _. Of V) (Of V)
  unfolding for_each
  directories-Of [] = record { at = λ h v. v }
  directories-Of (d ∷ ds) =
      Triple-then (Of V) (Of V) (λ _. Of V) (Of V) _ _ (create_directory-Of d) (directories-Of ds)

  pub create_directories-Of : Triple (Of V) (create_directories o) (λ _. Of V) (Of V)
  unfolding create_directories
  create_directories-Of = directories-Of dirs

  -- An atomic write is seen as a whole or not at all.
  module _ (W : View → Type 0) where
    change_put-Of :
        (path contents : Text) (f : File)
        → f.contents ≡ contents
        → ((v : View) → V v → W (written path contents v))
        → Triple (Of V) (change o (put_file path (some f))) (λ _. Of W) (Of V)
    unfolding change
    change_put-Of path contents f e w =
        Triple-then (Of V) (Of V) (λ _. Of W) (Of V) _ _ call-Of
          (record { at = λ h v. subst W (view_put path contents f h e) (w (view h) v) })

    pub write_file_atomic-Of :
        (path contents : Text) (mode : ℕ)
        → ((v : View) → V v → W (written path contents v))
        → Triple (Of V) (write_file_atomic o path contents mode) (λ _. Of W) (Of V)
    unfolding write_file_atomic
    write_file_atomic-Of path contents mode w = step (
        step (
          step (
            step (
              change_put-Of path contents
                (record { contents = contents; mode = mode; owner = o.own }) refl w))))
      where
        step :
            {A : Type 0} {m : Boot A}
            → Triple (Of V) m (λ _. Of W) (Of V)
            → Triple (Of V) (call o >> m) (λ _. Of W) (Of V)
        step {m = m} t = Triple-then (Of V) (Of V) (λ _. Of W) (Of V) (call o) m call-Of t

  -- What is read is what is there.
  read-Ends :
      (path : Text) (x : Option File) (h : Host)
      → h.files path ≡ x
      → Of V h
      → Ends (λ t h'. V (view h') × (view h' path ≡ some t)) (λ h'. V (view h')) (read_of o x, h)
  read-Ends path none h e v = v
  read-Ends path (some f) h e v = (v, ap contents_of e)

  pub read_file-Of :
      (path : Text)
      → Triple (Of V) (read_file o path) (λ t h. V (view h) × (view h path ≡ some t)) (Of V)
  unfolding read_file
  read_file-Of path =
      Triple-then (Of V) (Of V) (λ t h. V (view h) × (view h path ≡ some t)) (Of V) _ _ call-Of
        (record { at = λ h v. read-Ends path (h.files path) h refl v })

  module _ {A : Type 0} (path : Text) (parse : Text → Result BootError A) (fresh : A) where
    -- A value that was parsed from the file, or stands for a file that is not there.
    abbrev pub IsLoaded : A × Bool → View → Type 0
    IsLoaded (a, true) v = (t : Text) × (v path ≡ some t) × (parse t ≡ ok a)
    IsLoaded (a, false) v = (v path ≡ none) × (a ≡ fresh)

    abbrev pub Reads : Result BootError Text × Host → Type 0
    Reads (ok t, h) = V (view h) × (view h path ≡ some t)
    Reads (err e, h) = V (view h) × (is_missing e ≡ true → view h path ≡ none)

    read_of-Reads :
        (x : Option File) (h : Host) → h.files path ≡ x → Of V h → Reads (read_of o x, h)
    read_of-Reads none h e v = (v, λ m. ap contents_of e)
    read_of-Reads (some f) h e v = (v, ap contents_of e)

    pub read_file-Reads : (h : Host) → Of V h → Reads (read_file o path h)
    unfolding read_file call ◌>>◌ ◌>>=◌
    read_file-Reads h v = elim (Bool-cases (o.fails h.calls)) [
      | inl e ↦ rw e (v, λ m. cc)
      | inr e ↦ rw e (read_of-Reads (h.files path) (record h { calls = h.calls + 1 }) refl v)
    ]

    abbrev pub Loads : A × Bool → Host → Type 0
    Loads p h = V (view h) × IsLoaded p (view h)

    parsed-Ends :
        (t : Text) (h : Host) (r : Result BootError A)
        → Reads (ok t, h)
        → parse t ≡ r
        → Ends Loads (Of V) (elim r [ ok a ↦ ok (a, true) | err e ↦ err e ], h)
    parsed-Ends t h (ok a) (v, e) q = (v, (t, e, q))
    parsed-Ends t h (err x) (v, e) q = v

    pub or_fresh-Ends :
        (x : Result BootError Text × Host)
        → Reads x
        → Ends Loads (Of V) (or_fresh parse fresh x.0, x.1)
    or_fresh-Ends (ok t, h) r = parsed-Ends t h (parse t) r refl
    or_fresh-Ends (err e, h) (v, m) = missing (is_missing e) refl
      where
        missing :
            (b : Bool)
            → is_missing e ≡ b
            → Ends Loads (Of V) (if b then ok (fresh, false) else err e, h)
        missing true q = (v, (m q, refl))
        missing false q = v
