-- ===== src/Load/Entries.antt =====
-- The entries of a file and the contents of the nodes that they make.
use libcorkipset.Prelude.{
  ℕ, zero, suc, ◌+◌, ◌*◌, ◌^◌, ◌≤◌, ◌<◌, ◌≡◌, ◌≢◌, refl, ap, some, List, [], ◌∷◌, ◌++◌, map, arith,
  length, get_elem?,
}
use libcorkipset.Cache.Graph.{Content}
use libcorkipset.SerializedId.{ℤ, pos, negsuc, IsInt32}
use libcorkipset.Save.Entry.{Entry}
use libcorkipset.Save.Places.{Earlier}

-- The node ids that a loaded file has: nonterminals are numbered from 0 on.
abbrev pub id_of : ℤ → ℕ
id_of (pos v) = v * 2 + 1
id_of (negsuc j) = j * 2

pub id_of-injective : (s t : ℤ) → id_of s ≡ id_of t → s ≡ t
id_of-injective (pos a) (pos b) e = ap pos (omega arith)
id_of-injective (negsuc a) (negsuc b) e = ap negsuc (omega arith)
id_of-injective (pos a) (negsuc b) e = absurd (omega arith)
id_of-injective (negsuc a) (pos b) e = absurd (omega arith)

abbrev pub content_of : Entry → Content
content_of e = record { variable = e.variable; low = id_of e.low; high = id_of e.high }

pub content_of-injective : (e f : Entry) → content_of e ≡ content_of f → e ≡ f
content_of-injective e f p =
    let var : e.variable ≡ f.variable = ap (λ (k : Content). k.variable) p in
    let low = id_of-injective e.low f.low (ap (λ (k : Content). k.low) p) in
    let high = id_of-injective e.high f.high (ap (λ (k : Content). k.high) p) in
    λ d. record { variable = var d; low = low d; high = high d }

-- Entries that fit in a file of version 1, and that make one new node each.
pub record Loadable (es : List Entry) : Type 0 where
  pub few : length es ≤ 2 ^ 31
  pub variables : (j : ℕ) (e : Entry) → get_elem? es j ≡ some e → e.variable < 256
  pub low_fits : (j : ℕ) (e : Entry) → get_elem? es j ≡ some e → Earlier j e.low × IsInt32 e.low
  pub high_fits : (j : ℕ) (e : Entry) → get_elem? es j ≡ some e → Earlier j e.high × IsInt32 e.high
  pub irredundant : (j : ℕ) (e : Entry) → get_elem? es j ≡ some e → e.low ≢ e.high
  pub distinct : (i j : ℕ) (e : Entry) → get_elem? es i ≡ some e → get_elem? es j ≡ some e → i ≡ j

pub length-map : (es : List Entry) → length (map content_of es) ≡ length es
length-map [] = refl
length-map (e ∷ es) = ap suc (length-map es)

pub map-snoc :
    (es : List Entry) (e : Entry)
    → map content_of (es ++ e ∷ []) ≡ map content_of es ++ content_of e ∷ []
map-snoc [] e = refl
map-snoc (x ∷ es) e = ap (λ ks. content_of x ∷ ks) (map-snoc es e)

pub get_elem?-map :
    (es : List Entry) (i : ℕ) (k : Content)
    → get_elem? (map content_of es) i ≡ some k
    → (e : Entry) × (get_elem? es i ≡ some e) × (content_of e ≡ k)
get_elem?-map [] i k h = absurd cc
get_elem?-map (x ∷ es) zero k h = (x, refl, cc)
get_elem?-map (x ∷ es) (suc i) k h = get_elem?-map es i k h

pub map-get_elem? :
    (es : List Entry) (i : ℕ) (e : Entry)
    → get_elem? es i ≡ some e
    → get_elem? (map content_of es) i ≡ some (content_of e)
map-get_elem? [] i e h = absurd cc
map-get_elem? (x ∷ es) zero e h = let same : x ≡ e = cc in ap (λ y. some (content_of y)) same
map-get_elem? (x ∷ es) (suc i) e h = map-get_elem? es i e h
