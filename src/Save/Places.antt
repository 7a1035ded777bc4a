-- ===== src/Save/Places.antt =====
-- The places of nodes in the order of a file.
use libcorkipset.Prelude.{
  ℕ, ◌+◌, ◌*◌, ◌<◌, ◌≡◌, ◌∙◌, Bool, true, false, Option, some, List, [], ◌∷◌, ◌++◌, length,
  get_elem?, get_elem?-append, lt-get_elem?,
}
use libcorkipset.Cache.Graph.{Content, Graph}
use libcorkipset.SerializedId.{ℤ, pos, negsuc}
use libcorkipset.Save.Entry.{Entry}

-- The serialized id of a node: its value, or its place in the order.
abbrev pub Final : List ℕ → ℕ → ℤ → Type 0
Final order id (pos v) = id ≡ v * 2 + 1
Final order id (negsuc j) = (i : ℕ) × (id ≡ i * 2) × (get_elem? order j ≡ some i)

abbrev pub Earlier : ℕ → ℤ → Type 0
Earlier j (pos v) = Unit {0}
Earlier j (negsuc m) = m < j

abbrev pub Refers : List ℕ → ℕ → ℕ → ℤ → Type 0
Refers order j id s = Final order id s × Earlier j s

-- Entry `j` is the node that was written in place `j`.
pub record Written (g : Graph) (order : List ℕ) (es : List Entry) (j i : ℕ) : Type 0 where
  pub content : Content
  pub here : g i ≡ some content
  pub low : ℤ
  pub high : ℤ
  pub entry : get_elem? es j ≡ some (record { variable = content.variable; low = low; high = high })
  pub low_refers : Refers order j content.low low
  pub high_refers : Refers order j content.high high

pub Final-append :
    (order more : List ℕ) (id : ℕ) (s : ℤ) → Final order id s → Final (order ++ more) id s
Final-append order more id (pos v) f = f
Final-append order more id (negsuc j) (i, e, at) =
    (i, e, get_elem?-append order more j (lt-get_elem? order j at) ∙ at)

pub Earlier-Final : (order : List ℕ) (id : ℕ) (s : ℤ) → Final order id s → Earlier (length order) s
Earlier-Final order id (pos v) f = tt
Earlier-Final order id (negsuc j) (i, e, at) = lt-get_elem? order j at

pub Written-snoc :
    (g : Graph) (order : List ℕ) (es : List Entry) (i' : ℕ) (e' : Entry) (j i : ℕ)
    → Written g order es j i
    → Written g (order ++ i' ∷ []) (es ++ e' ∷ []) j i
Written-snoc g order es i' e' j i w = record {
  content = w.content;
  here = w.here;
  low = w.low;
  high = w.high;
  entry = get_elem?-append es (e' ∷ []) j (lt-get_elem? es j w.entry) ∙ w.entry;
  low_refers = (Final-append order (i' ∷ []) w.content.low w.low w.low_refers.0, w.low_refers.1);
  high_refers =
      (Final-append order (i' ∷ []) w.content.high w.high w.high_refers.0, w.high_refers.1);
}

-- An index is written once.
abbrev pub is_placed : Option ℤ → Bool
is_placed (some (negsuc j)) = true
is_placed _ = false
