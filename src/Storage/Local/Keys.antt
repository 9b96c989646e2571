-- ===== src/Storage/Local/Keys.antt =====
-- internal/storage/storage.go: keys and the paths of their files.
use mathlib.Core.List.{append-nil, append_assoc}
use backwyn.Prelude.{
  ◌≡◌, ◌≢◌, refl, sym, ap, ◌∙◌, inl, inr, ℕ, Bool, true, false, not, ◌&&◌, List, [], ◌∷◌, ◌++◌,
  arith, ◌==◌, ==_iff, Bool-cases,
}
use backwyn.Prelude.Text.{Text, lit, text_eq, text_eq_refl, has_prefix, join}
use backwyn.Prelude.Text.Split.{split}
use backwyn.Prelude.Text.Paths.{
  FilePath, enter, enter_all, join_path, rel, to_slash, is_name, all, without_slash,
}
use backwyn.Storage.Local.{key_of}

-- A component of a key: a name, and not that of a temporary file.
abbrev pub is_object : Text → Bool
is_object c = is_name c && not (has_prefix c (lit ".tmp-"))

-- The keys that stand for one file each, which no temporary file can be.
abbrev pub IsKey : Text → Type 0
IsKey k = all is_object (split k 47) ≡ true

enter-name : (p : FilePath) (c : Text) → is_name c ≡ true → enter p c ≡ p ++ c ∷ []
unfolding enter
enter-name p c h = ground arith

enter_all-objects :
    (p : FilePath) (cs : List Text) → all is_object cs ≡ true → enter_all p cs ≡ p ++ cs
unfolding enter_all
enter_all-objects p [] h = sym (append-nil p)
enter_all-objects p (c ∷ cs) h =
    ap (λ q. enter_all q cs) (enter-name p c (ground arith))
    ∙ (enter_all-objects (p ++ c ∷ []) cs (ground arith) ∙ append_assoc p (c ∷ []) cs)

rel-append : (dir : FilePath) (t : Text) (ts : FilePath) → rel dir (dir ++ t ∷ ts) ≡ t ∷ ts
unfolding rel
rel-append [] t ts = refl
rel-append (b ∷ bs) t ts = simp (text_eq_refl b) (rel-append bs t ts)

rel_self : (dir : FilePath) → rel dir dir ≡ lit "." ∷ []
unfolding rel
rel_self [] = refl
rel_self (b ∷ bs) = simp (text_eq_refl b) (rel_self bs)

-- The parts of a string, of which there is one at least.
split_parts : (k : Text) → (c : Text) × (cs : List Text) × (split k 47 ≡ c ∷ cs)
unfolding split
split_parts [] = ([], [], refl)
split_parts (x ∷ k) =
    let (c, cs, e) = split_parts k in
    elim (Bool-cases (x == 47)) [
      | inl slash ↦ ([], split k 47, simp slash refl)
      | inr other ↦ (x ∷ c, cs, simp (other, e) refl)
    ]

join-onto :
    (x : ℕ) (c : Text) (cs : List Text)
    → join ((x ∷ c) ∷ cs) (lit "/") ≡ x ∷ join (c ∷ cs) (lit "/")
unfolding join
join-onto x c [] = refl
join-onto x c (d ∷ cs) = refl

join-split : (k : Text) → join (split k 47) (lit "/") ≡ k
unfolding split join lit
join-split [] = refl
join-split (x ∷ k) =
    let (c, cs, e) = split_parts k in
    let rest : join (c ∷ cs) (lit "/") ≡ k = rw (e) at (join-split k) in
    elim (Bool-cases (x == 47)) [
      | inl slash ↦ let same : x ≡ 47 = (==_iff x 47).0 slash in simp (e, same) (ap (◌∷◌ 47) rest)
      | inr other ↦ simp (other, e) (join-onto x c cs ∙ ap (◌∷◌ x) rest)
    ]

split_onto :
    (x : ℕ) (k c : Text) (cs : List Text)
    → (x == 47) ≡ false
    → split k 47 ≡ c ∷ cs
    → split (x ∷ k) 47 ≡ (x ∷ c) ∷ cs
unfolding split
split_onto x k c cs h e = simp (h, e) refl

pub split-join :
    (c : Text) (cs : List Text)
    → all without_slash (c ∷ cs) ≡ true
    → split (join (c ∷ cs) (lit "/")) 47 ≡ c ∷ cs
unfolding split join lit
split-join [] [] h = refl
split-join [] (d ∷ cs) h = ap (◌∷◌ []) (split-join d cs h)
split-join (x ∷ c) cs h =
    let rest : split (join (c ∷ cs) (lit "/")) 47 ≡ c ∷ cs = split-join c cs (ground arith) in
    ap (λ s. split s 47) (join-onto x c cs)
    ∙ split_onto x (join (c ∷ cs) (lit "/")) c cs (ground arith) rest

dot_is_no-IsKey : ¬ IsKey (to_slash (lit "." ∷ []))
unfolding lit split text_eq to_slash join
dot_is_no-IsKey h = ground arith

module _ (dir : FilePath) where
  -- The path of a key is its parts below the directory.
  pub join_path-key : (k : Text) → IsKey k → join_path dir k ≡ dir ++ split k 47
  unfolding join_path
  join_path-key k h = enter_all-objects dir (split k 47) h

  -- `List` finds the key of the file that a key is stored in.
  pub key_of-join_path : (k : Text) → IsKey k → key_of dir (join_path dir k) ≡ k
  unfolding key_of to_slash
  key_of-join_path k h =
      let (c, cs, e) = split_parts k in
      ap (λ p. to_slash (rel dir p)) (join_path-key k h ∙ ap (λ ts. dir ++ ts) e)
      ∙ (ap to_slash (rel-append dir c cs) ∙ (ap to_slash (sym e) ∙ join-split k))

  -- Two keys have different files.
  pub join_path-injective :
      (k j : Text) → IsKey k → IsKey j → join_path dir k ≡ join_path dir j → k ≡ j
  join_path-injective k j hk hj e =
      sym (key_of-join_path k hk) ∙ (ap (key_of dir) e ∙ key_of-join_path j hj)

  -- A file below the directory whose key has a path of its own is at that path.
  pub join_path-key_of :
      (cs : List Text)
      → all without_slash cs ≡ true
      → IsKey (key_of dir (dir ++ cs))
      → join_path dir (key_of dir (dir ++ cs)) ≡ dir ++ cs
  unfolding key_of to_slash
  join_path-key_of [] h hk =
      let whole : key_of dir (dir ++ []) ≡ to_slash (lit "." ∷ []) =
        ap (λ p. to_slash (rel dir p)) (append-nil dir) ∙ ap to_slash (rel_self dir) in
      absurd (dot_is_no-IsKey (rw whole at hk))
  join_path-key_of (c ∷ cs) h hk =
      join_path-key (key_of dir (dir ++ c ∷ cs)) hk
      ∙ ap (λ ts. dir ++ ts)
          (ap (λ p. split (to_slash p) 47) (rel-append dir c cs) ∙ split-join c cs h)

last : FilePath → Text
last [] = []
last (x ∷ []) = x
last (x ∷ y ∷ p) = last (y ∷ p)

last-append : (p : FilePath) (c : Text) (cs : FilePath) → last (p ++ c ∷ cs) ≡ last (c ∷ cs)
unfolding last
last-append [] c cs = refl
last-append (x ∷ []) c cs = refl
last-append (x ∷ y ∷ p) c cs = last-append (y ∷ p) c cs

last-objects :
    (c : Text) (cs : List Text) → all is_object (c ∷ cs) ≡ true → is_object (last (c ∷ cs)) ≡ true
unfolding last
last-objects c [] h = ground arith
last-objects c (d ∷ cs) h = last-objects d cs (ground arith)

has_prefix-append : (p s : Text) → has_prefix (p ++ s) p ≡ true
unfolding has_prefix
has_prefix-append [] s = ground arith
has_prefix-append (x ∷ p) s = ground (arith, has_prefix-append p s)

-- No key's file is a temporary one.
pub join_path-temp :
    (dir d : FilePath) (r k : Text) → IsKey k → join_path dir k ≢ d ++ (lit ".tmp-" ++ r) ∷ []
unfolding last lit
join_path-temp dir d r k h e =
    let (c, cs, parts) = split_parts k in
    let object : is_object (last (c ∷ cs)) ≡ true = last-objects c cs (rw parts at h) in
    let same : last (c ∷ cs) ≡ lit ".tmp-" ++ r =
      sym (last-append dir c cs)
      ∙ (ap last (ap (λ ts. dir ++ ts) (sym parts) ∙ (sym (join_path-key dir k h) ∙ e))
          ∙ last-append d (lit ".tmp-" ++ r) []) in
    absurd (ground (arith, has_prefix-append (lit ".tmp-") r, rw same at object))
