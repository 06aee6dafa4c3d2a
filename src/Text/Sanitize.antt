-- ===== src/Text/Sanitize.antt =====
-- Sanitized texts hold only runes that are shown, fit their bound, and are left alone by a second
-- pass (internal/manager/store.go and node.go).
use Prim.Native.Char.{len_utf8}
use Prim.Native.String.len
use proxyscene.Common.{
  Bool, Bool-cases, Char, String, and-eq-true, ap, arith, cons-eq-cons, cons-ne-nil, eq_iff,
  every_rune, false, ge→ltb, inl, inr, is_space, keep_runes, le_trans, leb, leb→le, len, le→leb,
  ltb, ltb→ge, refl, subst, sym, trim_left, trim_right, trim_right_step, trim_space, true, ℕ, ◌-◌,
  ◌==◌, ◌∙◌, ◌≡◌, ◌≢◌, ◌≤◌,
}
use proxyscene.Text.{is_shown, sanitize_display_text, sanitize_node_name, take_bytes}

module _ (p : Char → Bool) where
  keep_runes-every_rune : (s : String) → every_rune p s ≡ true → keep_runes p s ≡ s
  unfolding keep_runes every_rune
  keep_runes-every_rune String.[] h = refl
  keep_runes-every_rune (String.◌∷◌ c s) h = ground (arith, keep_runes-every_rune s)

  every_rune-keep_runes : (s : String) → every_rune p (keep_runes p s) ≡ true
  unfolding keep_runes every_rune
  every_rune-keep_runes String.[] = refl
  every_rune-keep_runes (String.◌∷◌ c s) = ground (arith, every_rune-keep_runes s)

  every_rune-take_bytes :
      (n : ℕ) (s : String) → every_rune p s ≡ true → every_rune p (take_bytes n s) ≡ true
  unfolding take_bytes every_rune
  every_rune-take_bytes n String.[] h = refl
  every_rune-take_bytes n (String.◌∷◌ c s) h = elim (Bool-cases (leb (len_utf8 c) n)) [
    | inl e ↦ rw e (ground (arith, every_rune-take_bytes (n - len_utf8 c) s))
    | inr e ↦ rw e
  ]

  every_rune-trim_left : (s : String) → every_rune p s ≡ true → every_rune p (trim_left s) ≡ true
  unfolding trim_left every_rune
  every_rune-trim_left String.[] h = refl
  every_rune-trim_left (String.◌∷◌ c s) h = ground (arith, every_rune-trim_left s)

  every_rune-step :
      (c : Char) (t : String)
      → p c ≡ true
      → every_rune p t ≡ true
      → every_rune p (trim_right_step c t) ≡ true
  unfolding every_rune
  every_rune-step c String.[] h k = elim (Bool-cases (is_space c)) [
    | inl e ↦ rw e
    | inr e ↦ rw e (ground arith)
  ]
  every_rune-step c (String.◌∷◌ d t) h k = ground arith

  every_rune-trim_right : (s : String) → every_rune p s ≡ true → every_rune p (trim_right s) ≡ true
  unfolding trim_right every_rune
  every_rune-trim_right String.[] h = refl
  every_rune-trim_right (String.◌∷◌ c s) h =
      let (first, rest) = and-eq-true _ _ h in
      every_rune-step c (trim_right s) first (every_rune-trim_right s rest)

len-take_bytes : (n : ℕ) (s : String) → len (take_bytes n s) ≤ n
unfolding take_bytes
len-take_bytes n String.[] = omega arith
len-take_bytes n (String.◌∷◌ c s) = elim (Bool-cases (leb (len_utf8 c) n)) [
  | inl e ↦ rw (e, len.cons) (omega (arith, leb→le _ _ e, len-take_bytes (n - len_utf8 c) s))
  | inr e ↦ rw e (omega arith)
]

first_fits : (c : Char) (s : String) → len_utf8 c ≤ len (String.◌∷◌ c s)
first_fits c s = rw len.cons (omega arith)

rest_fits : (c : Char) (s : String) (n : ℕ) → len (String.◌∷◌ c s) ≤ n → len s ≤ n - len_utf8 c
rest_fits c s n h = let k = rw len.cons at h in omega arith

take_bytes_fits : (n : ℕ) (s : String) → len s ≤ n → take_bytes n s ≡ s
unfolding take_bytes
take_bytes_fits n String.[] h = refl
take_bytes_fits n (String.◌∷◌ c s) h =
    let fits : leb (len_utf8 c) n ≡ true = le→leb _ _ (le_trans (first_fits c s) h) in
    rw fits (ap (λ t. String.◌∷◌ c t) (take_bytes_fits (n - len_utf8 c) s (rest_fits c s n h)))

trim_left_idem : (s : String) → trim_left (trim_left s) ≡ trim_left s
unfolding trim_left
trim_left_idem String.[] = refl
trim_left_idem (String.◌∷◌ c s) = ground (arith, trim_left_idem s)

trim_right-step :
    (c : Char) (t : String)
    → trim_right t ≡ t
    → trim_right (trim_right_step c t) ≡ trim_right_step c t
unfolding trim_right
trim_right-step c String.[] h = elim (Bool-cases (is_space c)) [
  | inl e ↦ rw e
  | inr e ↦ rw e (rw e)
]
trim_right-step c (String.◌∷◌ d t) h = ap (trim_right_step c) h

trim_right_idem : (s : String) → trim_right (trim_right s) ≡ trim_right s
unfolding trim_right
trim_right_idem String.[] = refl
trim_right_idem (String.◌∷◌ c s) = trim_right-step c (trim_right s) (trim_right_idem s)

-- The tail of a text that ends in no space ends in none.
step_tail : (c : Char) (s t : String) → trim_right_step c t ≡ String.◌∷◌ c s → t ≡ s
step_tail c s String.[] h = elim (Bool-cases (is_space c)) [
  | inl e ↦ absurd (cons-ne-nil c s (sym (rw e at h)))
  | inr e ↦ (cons-eq-cons.0 (rw e at h)).1
]
step_tail c s (String.◌∷◌ d t) h = (cons-eq-cons.0 h).1

trim_right-trim_left : (s : String) → trim_right s ≡ s → trim_right (trim_left s) ≡ trim_left s
unfolding trim_left trim_right
trim_right-trim_left String.[] h = refl
trim_right-trim_left (String.◌∷◌ c s) h = elim (Bool-cases (is_space c)) [
  | inl e ↦ rw e (trim_right-trim_left s (step_tail c s (trim_right s) h))
  | inr e ↦ rw e h
]

pub trim_space_idem : (s : String) → trim_space (trim_space s) ≡ trim_space s
unfolding trim_space
trim_space_idem s =
    rw (trim_right-trim_left (trim_right s) (trim_right_idem s)) (trim_left_idem (trim_right s))

every_rune-trim_space :
    (p : Char → Bool) (s : String) → every_rune p s ≡ true → every_rune p (trim_space s) ≡ true
unfolding trim_space
every_rune-trim_space p s h = every_rune-trim_left p (trim_right s) (every_rune-trim_right p s h)

shown_text : (s : String) (n : ℕ) → every_rune is_shown (sanitize_display_text s n) ≡ true
unfolding sanitize_display_text
shown_text s n =
    let clean = every_rune-keep_runes is_shown s in
    elim (Bool-cases (ltb n (len (keep_runes is_shown s)))) [
      | inl e ↦ rw e (every_rune-take_bytes is_shown n (keep_runes is_shown s) clean)
      | inr e ↦ rw e clean
    ]

short_text : (s : String) (n : ℕ) → len (sanitize_display_text s n) ≤ n
unfolding sanitize_display_text
short_text s n = elim (Bool-cases (ltb n (len (keep_runes is_shown s)))) [
  | inl e ↦ rw e (len-take_bytes n (keep_runes is_shown s))
  | inr e ↦ rw e (ltb→ge _ _ e)
]

clean_text :
    (s : String) (n : ℕ) → every_rune is_shown s ≡ true → len s ≤ n → sanitize_display_text s n ≡ s
unfolding sanitize_display_text
clean_text s n shown short = rw (keep_runes-every_rune is_shown s shown) (rw (ge→ltb _ _ short))

-- A sanitized text holds no control or format rune, has at most the given number of bytes, and is
-- left alone by a second pass with that bound.
pub sanitize_display_text_clean :
    (s : String) (n : ℕ)
    → (every_rune is_shown (sanitize_display_text s n) ≡ true)
      × (len (sanitize_display_text s n) ≤ n)
      × (sanitize_display_text (sanitize_display_text s n) n ≡ sanitize_display_text s n)
sanitize_display_text_clean s n =
    let shown : every_rune is_shown (sanitize_display_text s n) ≡ true = shown_text s n in
    let short : len (sanitize_display_text s n) ≤ n = short_text s n in
    (shown, short, clean_text (sanitize_display_text s n) n shown short)

node_name : (s : String) → trim_space (keep_runes is_shown s) ≡ "" → sanitize_node_name s ≡ "node"
unfolding sanitize_node_name
node_name s e = rw e

kept_name :
    (s : String)
    → (trim_space (keep_runes is_shown s) == "") ≡ false
    → sanitize_node_name s ≡ trim_space (keep_runes is_shown s)
unfolding sanitize_node_name
kept_name s e = rw e

fixed_name :
    (t : String)
    → (t == "") ≡ false
    → every_rune is_shown t ≡ true
    → trim_space t ≡ t
    → sanitize_node_name t ≡ t
fixed_name t e shown trimmed =
    let kept : trim_space (keep_runes is_shown t) ≡ t =
      rw (keep_runes-every_rune is_shown t shown) trimmed in
    kept_name t (rw kept e) ∙ kept

-- A property of the two names that there can be.
name_cases :
    (P : String → Type 0) (s : String)
    → P "node"
    → ((trim_space (keep_runes is_shown s) == "") ≡ false → P (trim_space (keep_runes is_shown s)))
    → P (sanitize_node_name s)
name_cases P s node kept = elim (Bool-cases (trim_space (keep_runes is_shown s) == "")) [
  | inl e ↦ subst P (sym (node_name s ((eq_iff _ _).0 e))) node
  | inr e ↦ subst P (sym (kept_name s e)) (kept e)
]

record IsClean (t : String) : Type 0 where
  nonempty : t ≢ ""
  shown : every_rune is_shown t ≡ true
  fixed : sanitize_node_name t ≡ t

node-IsClean : IsClean "node"
unfolding is_shown every_rune sanitize_node_name
node-IsClean = record { nonempty = λ e. cons-ne-nil _ _ e; shown = refl; fixed = refl }

kept-IsClean :
    (s : String)
    → (trim_space (keep_runes is_shown s) == "") ≡ false
    → IsClean (trim_space (keep_runes is_shown s))
kept-IsClean s e =
    let shown = every_rune-trim_space is_shown _ (every_rune-keep_runes is_shown s) in
    record {
      nonempty = λ z. ground (arith, eq_iff (trim_space (keep_runes is_shown s)) "");
      shown = shown;
      fixed = fixed_name _ e shown (trim_space_idem (keep_runes is_shown s));
    }

-- A sanitized node name is not empty, holds no control or format rune, and is left alone by a
-- second pass.
pub sanitize_node_name_clean :
    (s : String)
    → (sanitize_node_name s ≢ "")
      × (every_rune is_shown (sanitize_node_name s) ≡ true)
      × (sanitize_node_name (sanitize_node_name s) ≡ sanitize_node_name s)
sanitize_node_name_clean s =
    let clean = name_cases IsClean s node-IsClean (kept-IsClean s) in
    (clean.nonempty, clean.shown, clean.fixed)
