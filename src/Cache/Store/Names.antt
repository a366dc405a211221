-- ===== src/Cache/Store/Names.antt =====
-- cache/store.py: the file names of keys.
use Prim.Native.Char.{Char}
use text.Mathlib.TextLemmas.{nil-append, cons-append, append_cancel_left, append_cancel_right}
use open_baseten_inference.Prelude.{
  ◌≡◌, refl, sym, ap, ◌∙◌, String, str_append, Bool, true, false, ◌&&◌, arith,
}
use open_baseten_inference.Cache.Store.{Platform, dash, is_safe, safe, path_for, joined_key}

abbrev pub all_chars : (Char → Bool) → String → Bool
all_chars t String.[] = true
all_chars t (String.◌∷◌ c s) = t c && all_chars t s

all_chars-append :
    (t : Char → Bool) (s u : String)
    → all_chars t (str_append s u) ≡ (all_chars t s && all_chars t u)
all_chars-append t String.[] u = rw nil-append
all_chars-append t (String.◌∷◌ c s) u = rw cons-append (ground (arith, all_chars-append t s u))

dashed :
    (t : Char → Bool) (s u : String)
    → t dash ≡ true
    → all_chars t s ≡ true
    → all_chars t u ≡ true
    → all_chars t (str_append s (str_append "-" u)) ≡ true
dashed t s u d h k =
    let tail : all_chars t (str_append "-" u) ≡ true = all_chars-append t "-" u ∙ ground arith in
    all_chars-append t s (str_append "-" u) ∙ ground arith

all_chars-weaken :
    (t u : Char → Bool) (s : String)
    → ((c : Char) → t c ≡ true → u c ≡ true)
    → all_chars t s ≡ true
    → all_chars u s ≡ true
all_chars-weaken t u String.[] w h = refl
all_chars-weaken t u (String.◌∷◌ c s) w h = ground (arith, w c, all_chars-weaken t u s w)

head_of : Char → String → Char
head_of d String.[] = d
head_of d (String.◌∷◌ c s) = c

rest_of : String → String
rest_of String.[] = String.[]
rest_of (String.◌∷◌ c s) = s

module _ (P : Platform) (dash_not_alnum : P.is_alnum dash ≡ false) where
  safe-keeps : (s : String) → all_chars (is_safe P) s ≡ true → safe P s ≡ s
  safe-keeps String.[] h = refl
  safe-keeps (String.◌∷◌ c s) h = ground (arith, safe-keeps s)

  -- a text that begins with a dash is no text that begins with an alphanumeric character
  no_dash : (c : Char) (x s : String) → str_append "-" x ≡ String.◌∷◌ c s → P.is_alnum c ≡ true → ⊥
  unfolding head_of
  no_dash c x s e h =
      let same : dash ≡ c = ap (head_of dash) (sym (cons-append dash "" x) ∙ e) in
      absurd (cc (dash_not_alnum, ap P.is_alnum same))

  split_at_dash :
      (a b x y : String)
      → all_chars P.is_alnum a ≡ true
      → all_chars P.is_alnum b ≡ true
      → str_append a (str_append "-" x) ≡ str_append b (str_append "-" y)
      → (a ≡ b) × (x ≡ y)
  unfolding head_of rest_of
  split_at_dash String.[] String.[] x y p q e =
      (refl, append_cancel_left "-" x y (sym (nil-append _) ∙ e ∙ nil-append _))
  split_at_dash String.[] (String.◌∷◌ c b) x y p q e =
      absurd (no_dash c x _ (sym (nil-append _) ∙ e ∙ cons-append c b _) (ground arith))
  split_at_dash (String.◌∷◌ c a) String.[] x y p q e =
      absurd (no_dash c y _ (sym (nil-append _) ∙ sym e ∙ cons-append c a _) (ground arith))
  split_at_dash (String.◌∷◌ c a) (String.◌∷◌ d b) x y p q e =
      let e' = sym (cons-append c a (str_append "-" x)) ∙ e ∙ cons-append d b (str_append "-" y) in
      let same : c ≡ d = ap (head_of dash) e' in
      let (front, back) = split_at_dash a b x y (ground arith) (ground arith) (ap rest_of e') in
      (cc (same, front), back)

  pub joined_key_injective :
      (h m w h' m' w' : String)
      → all_chars P.is_alnum h ≡ true
      → all_chars P.is_alnum h' ≡ true
      → all_chars P.is_alnum m ≡ true
      → all_chars P.is_alnum m' ≡ true
      → joined_key h m w ≡ joined_key h' m' w'
      → (h ≡ h') × (m ≡ m') × (w ≡ w')
  joined_key_injective h m w h' m' w' a a' b b' e =
      let (first, rest) = split_at_dash h h' _ _ a a' e in
      let (second, third) = split_at_dash m m' w w' b b' rest in (first, second, third)

  joined_key-safe :
      (h m w : String)
      → all_chars P.is_alnum h ≡ true
      → all_chars P.is_alnum m ≡ true
      → all_chars P.is_alnum w ≡ true
      → all_chars (is_safe P) (joined_key h m w) ≡ true
  joined_key-safe h m w a b c =
      let weak = λ (s : String). all_chars-weaken P.is_alnum (is_safe P) s (λ d e. ground arith) in
      let dash_safe : is_safe P dash ≡ true = ground arith in
      dashed (is_safe P) h (str_append m (str_append "-" w)) dash_safe (weak h a)
        (dashed (is_safe P) m w dash_safe (weak m b) (weak w c))

  -- the names of the files of keys of alphanumeric parts are different where a part is different
  pub path_for_injective :
      (h m w h' m' w' : String)
      → all_chars P.is_alnum h ≡ true
      → all_chars P.is_alnum h' ≡ true
      → all_chars P.is_alnum m ≡ true
      → all_chars P.is_alnum m' ≡ true
      → all_chars P.is_alnum w ≡ true
      → all_chars P.is_alnum w' ≡ true
      → path_for P (joined_key h m w) ≡ path_for P (joined_key h' m' w')
      → (h ≡ h') × (m ≡ m') × (w ≡ w')
  path_for_injective h m w h' m' w' a a' b b' c c' e =
      joined_key_injective h m w h' m' w' a a' b b' (
        sym (safe-keeps (joined_key h m w) (joined_key-safe h m w a b c))
        ∙ append_cancel_right _ _ ".json" e
        ∙ safe-keeps (joined_key h' m' w') (joined_key-safe h' m' w' a' b' c'))
