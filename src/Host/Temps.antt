-- ===== src/Host/Temps.antt =====
-- The temporary files that the program has created and not yet removed.
use mathlib.Core.Path.{subst}
use backwyn.Prelude.{
  ap, ◌≡◌, refl, sym, ◌∙◌, Bool, false, not, ◌&&◌, ◌||◌, Bool-cases, inl, inr, List, Result, ok,
  err,
}
use backwyn.Prelude.Text.{Text, text_eq, text_eq→eq}
use backwyn.Prelude.Effect.{Eff, after, reworded}
use backwyn.Crypto.Stream.{Sink}
use backwyn.Host.{Host}

-- `temps h p` says that `os.CreateTemp` has made the file `p` and that no `os.Remove` has taken it
-- away. `os.CreateTemp` takes a name that no file has; the other calls, and the programs that run,
-- make no temporary files of the program and remove none.
pub record IsHost {H : Type 0} (host : Host H) (temps : H → Text → Bool) : Type 0 where
  pub temp_new : (p : Text) (h : H) (t : Text) → (host.create_temp p h).0 ≡ ok t → temps h t ≡ false
  pub temp_ok :
      (p : Text) (h : H) (t q : Text)
      → (host.create_temp p h).0 ≡ ok t
      → temps (host.create_temp p h).1 q ≡ (text_eq t q || temps h q)
  pub temp_err :
      (p : Text) (h : H) (e q : Text)
      → (host.create_temp p h).0 ≡ err e
      → temps (host.create_temp p h).1 q ≡ temps h q
  pub exec_kept :
      (bin : Text) (args : List Text) (h : H) (q : Text)
      → temps (host.exec bin args h).1 q ≡ temps h q
  pub filled_kept :
      (p : Text) (s : Sink) (h : H) (q : Text) → temps (host.filled p s h) q ≡ temps h q
  pub close_kept : (p : Text) (h : H) (q : Text) → temps (host.close p h).1 q ≡ temps h q
  pub open_kept : (p : Text) (h : H) (q : Text) → temps (host.open_file p h).1 q ≡ temps h q
  pub remove_gone :
      (p : Text) (h : H) (q : Text) → temps (host.remove p h) q ≡ (not (text_eq p q) && temps h q)

module _ {H : Type 0} (temps : H → Text → Bool) where
  -- The temporary files in `h'` are those in `h`.
  abbrev pub Same : H → H → Type 0
  Same h h' = (q : Text) → temps h' q ≡ temps h q

  -- Those in `h'` are those in `h`, and `path`, which is new.
  abbrev pub Took : Text → H → H → Type 0
  Took path h h' =
      (temps h path ≡ false) × ((q : Text) → temps h' q ≡ (text_eq path q || temps h q))

  -- The files stay, and a result has `Q`.
  abbrev pub Stays : {A : Type 0} → (A → Type 0) → H → Result Text A × H → Type 0
  Stays Q h (err e, h') = Same h h'
  Stays Q h (ok a, h') = Q a × Same h h'

  pub Same-trans : {h1 h2 h3 : H} → Same h1 h2 → Same h2 h3 → Same h1 h3
  Same-trans a b q = b q ∙ a q

  pub reworded-Same :
      {A : Type 0} (f : Text → Text) (h : H) (x : Result Text A × H)
      → Same h x.1
      → Same h (reworded f x).1
  reworded-Same f h (err e, h') same = same
  reworded-Same f h (ok a, h') same = same

  pub after-Same :
      {A B : Type 0} (h : H) (x : Result Text A × H) (f : A → Eff H B)
      → Same h x.1
      → ((a : A) (h' : H) → Same h' (f a h').1)
      → Same h (after x f).1
  after-Same h (err e, h') f same step = same
  after-Same h (ok a, h') f same step = Same-trans same (step a h')

  Stays-trans :
      {A : Type 0} (Q : A → Type 0) (h h' : H) (x : Result Text A × H)
      → Same h h'
      → Stays Q h' x
      → Stays Q h x
  Stays-trans Q h h' (err e, s) same st = Same-trans same st
  Stays-trans Q h h' (ok a, s) same st = (st.0, Same-trans same st.1)

  pub after-Stays :
      {A B : Type 0} (Q : B → Type 0) (h : H) (x : Result Text A × H) (f : A → Eff H B)
      → Same h x.1
      → ((a : A) (h' : H) → Stays Q h' (f a h'))
      → Stays Q h (after x f)
  after-Stays Q h (err e, h') f same step = same
  after-Stays Q h (ok a, h') f same step = Stays-trans Q h h' (f a h') same (step a h')

  module _ (host : Host H) (laws : IsHost host temps) where
    -- A file that is taken and removed leaves the others as they were.
    pub remove_back :
        (path : Text) {h h1 h2 : H} → Took path h h1 → Same h1 h2 → Same h (host.remove path h2)
    remove_back path {h} {h1} {h2} (new, took) same q =
        let gone : temps (host.remove path h2) q
            ≡ (not (text_eq path q) && (text_eq path q || temps h q)) =
          rw (laws.remove_gone path h2 q, same q, took q) refl in
        elim (Bool-cases (text_eq path q)) [
          | inl eq ↦ gone ∙ rw (eq, sym (text_eq→eq path q eq), new) refl
          | inr ne ↦ gone ∙ rw ne refl
        ]

  -- Where there is a result, its file is new and the others stay; otherwise all stay.
  abbrev pub Holds : {E A : Type 0} → (A → Text) → H → Result E A × H → Type 0
  Holds path h (err e, h') = Same h h'
  Holds path h (ok a, h') = Took (path a) h h'

  Holds-trans :
      {A : Type 0} (path : A → Text) (h h' : H) (x : Result Text A × H)
      → Same h h'
      → Holds path h' x
      → Holds path h x
  Holds-trans path h h' (err e, s) same held = Same-trans same held
  Holds-trans path h h' (ok a, s) same held =
      (sym (same (path a)) ∙ held.0, λ q. held.1 q ∙ ap (λ y. text_eq (path a) q || y) (same q))

  pub after-Holds :
      {A B : Type 0} (path : B → Text) (h : H) (x : Result Text A × H) (f : A → Eff H B)
      → Same h x.1
      → ((a : A) (h' : H) → Holds path h' (f a h'))
      → Holds path h (after x f)
  after-Holds path h (err e, h') f same step = same
  after-Holds path h (ok a, h') f same step = Holds-trans path h h' (f a h') same (step a h')

  module _ (host : Host H) (laws : IsHost host temps) where
    created_lem :
        (p : Text) (h : H) (x : Result Text Text × H)
        → host.create_temp p h ≡ x
        → Holds (λ t. t) h x
    created_lem p h (err e, h') made =
        λ q. ap (λ y. temps y.1 q) (sym made) ∙ laws.temp_err p h e q (ap (λ y. y.0) made)
    created_lem p h (ok t, h') made = (
      laws.temp_new p h t (ap (λ y. y.0) made),
      λ q. ap (λ y. temps y.1 q) (sym made) ∙ laws.temp_ok p h t q (ap (λ y. y.0) made),
    )

    after_created-Holds :
        {A : Type 0} (path : A → Text) (f : Text → Text) (h : H) (x : Result Text Text × H)
        (g : Text → Eff H A)
        → Holds (λ t. t) h x
        → ((t : Text) (h1 : H) → Took t h h1 → Holds path h (g t h1))
        → Holds path h (after (reworded f x) g)
    after_created-Holds path f h (err e, h') g held step = held
    after_created-Holds path f h (ok t, h') g held step = step t h' held

    -- What follows `os.CreateTemp` starts where there is a new file.
    pub create_temp-Holds :
        {A : Type 0} (path : A → Text) (f : Text → Text) (p : Text) (h : H) (g : Text → Eff H A)
        → ((t : Text) (h1 : H) → Took t h h1 → Holds path h (g t h1))
        → Holds path h (after (reworded f (host.create_temp p h)) g)
    create_temp-Holds path f p h g step =
        after_created-Holds path f h (host.create_temp p h) g (created_lem p h _ refl) step

    -- The deferred `os.Remove` of a result's file.
    pub or_remove-Holds :
        {A : Type 0} (path : A → Text) (t : Text) (h h1 : H) (x : Result Text A × H)
        → Took t h h1
        → Stays (λ a. path a ≡ t) h1 x
        → Holds {E = Text} path h
            (elim x.0 [ err e ↦ (err e, host.remove t x.1) | ok a ↦ (ok a, x.1) ])
    or_remove-Holds path t h h1 (err e, h') took same = remove_back host laws t took same
    or_remove-Holds path t h h1 (ok a, h') took st =
        subst (λ u. Took u h h') (sym st.0) (took.0, λ q. st.1 q ∙ took.1 q)
