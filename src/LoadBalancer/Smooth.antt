-- ===== src/LoadBalancer/Smooth.antt =====
-- load-balancer/smooth_weighted_round_robin.go. The slice `keys` and the maps `serverWeights` and
-- `currentWeights`, which have the same keys, are one list in the order of the keys. The fixed weights
-- are not negative here, an int in the source.
use design_pocs.Common.{
  ℕ, ◌+◌, ◌≡◌, ◌≢◌, ◌⊎◌, inl, inr, refl, sym, ◌∙◌, ap, true, false, Bool-cases, Option, none, some,
  List, [], ◌∷◌, map, arith, Bytes, bytes_eq, bytes_key, beq_refl, length, ◌==◌, if◌then◌else◌,
}
use mathlib.Core.Bool.{false≢true}
use mathlib.Core.Path.{subst}
use design_pocs.Common.Int.{ℤ, pos, negsuc, ◌+ℤ◌, ◌-ℤ◌, ltb_ℤ, int_laws}
use design_pocs.Common.Sort.{sort, bytes_lt}
use design_pocs.LoadBalancer.Servers.{Server, Next, chosen, failed}
use design_pocs.LoadBalancer.Classic.{Weighted, weight_sum, find_server}

pub record Entry : Type 0 where
  pub key : Bytes
  pub fixed_weight : ℕ
  pub current_weight : ℤ

-- NewSmoothWeightRoundRobin; `none` is its error.
unfoldable pub new_smooth : List Weighted → Option (List Entry)
new_smooth weights =
    if length weights == 0
    then none
    else if weight_sum weights == 100
    then some (
        map (λ w. record { key = w.key; fixed_weight = w.weight; current_weight = pos 0 })
          (sort (λ a b. bytes_lt a.key b.key) weights))
    else none

abbrev pub min_int : ℤ
min_int = negsuc 9223372036854775807

-- The loop over the keys: every current weight grows by the fixed one, and the first key with the
-- greatest of them is kept.
unfoldable pub grow : List Entry → ℤ → Bytes → List Entry × Bytes
grow [] max max_key = ([], max_key)
grow (e ∷ es) max max_key =
    let current = e.current_weight +ℤ pos e.fixed_weight in
    let bigger = ltb_ℤ max current in
    let (es', key) =
      grow es (if bigger then current else max) (if bigger then e.key else max_key) in
    (record e { current_weight = current } ∷ es', key)

-- s.currentWeights[maxKey] -= 100
unfoldable pub charge : Bytes → List Entry → List Entry
charge key [] = []
charge key (e ∷ es) =
    let rest = charge key es in
    if bytes_eq e.key key
    then record e { current_weight = e.current_weight -ℤ pos 100 } ∷ es
    else e ∷ rest

abbrev settle : Bytes → List Entry → Next → Next × List Entry
settle key es (chosen i) = (chosen i, charge key es)
settle key es other = (failed, es)

unfoldable pub smooth_next : List Server → List Entry → Next × List Entry
smooth_next servers es =
    if length servers == 0
    then (failed, es)
    else let (es', key) = grow es min_int [] in settle key es' (find_server servers 0 key)

abbrev pub fixed_total : List Entry → ℕ
fixed_total [] = 0
fixed_total (e ∷ es) = e.fixed_weight + fixed_total es

abbrev pub current_total : List Entry → ℤ
current_total [] = pos 0
current_total (e ∷ es) = e.current_weight +ℤ current_total es

grow-total :
    (es : List Entry) (max : ℤ) (key : Bytes)
    → current_total (grow es max key).0 ≡ current_total es +ℤ pos (fixed_total es)
unfolding grow
grow-total [] max key = omega int_laws
grow-total (e ∷ es) max key = rw (grow-total es) (omega int_laws)

abbrev HasKey : Bytes → List Entry → Type 0
HasKey key [] = ⊥
HasKey key (e ∷ es) = (bytes_eq e.key key ≡ true) ⊎ HasKey key es

charge-total :
    (key : Bytes) (es : List Entry)
    → HasKey key es
    → current_total (charge key es) ≡ current_total es -ℤ pos 100
unfolding charge
charge-total key [] h = absurd h
charge-total key (e ∷ es) h = elim (Bool-cases (bytes_eq e.key key)) [
  | inl here ↦ rw here (omega int_laws)
  | inr not_here ↦ rw not_here (elim h [
    | inl here ↦ absurd (false≢true (sym not_here ∙ here))
    | inr later ↦ rw (charge-total key es later) (omega int_laws)
  ])
]

-- One step of the loop, on a weight that is the greatest so far and on another.
abbrev grown : Entry → ℤ
grown e = e.current_weight +ℤ pos e.fixed_weight

abbrev set_current : Entry → ℤ → Entry
set_current e w = record e { current_weight = w }

grow-bigger :
    (e : Entry) (es : List Entry) (max : ℤ) (key : Bytes)
    → ltb_ℤ max (grown e) ≡ true
    → let r = grow es (grown e) e.key in
      grow (e ∷ es) max key ≡ (set_current e (grown e) ∷ r.0, r.1)
unfolding grow
grow-bigger e es max key h = rw h refl

grow-not_bigger :
    (e : Entry) (es : List Entry) (max : ℤ) (key : Bytes)
    → ltb_ℤ max (grown e) ≡ false
    → let r = grow es max key in grow (e ∷ es) max key ≡ (set_current e (grown e) ∷ r.0, r.1)
unfolding grow
grow-not_bigger e es max key h = rw h refl

abbrev KeyOf : List Entry × Bytes → Type 0
KeyOf r = HasKey r.1 r.0

HasKey-head :
    (e : Entry) (w : ℤ) (r : List Entry × Bytes)
    → (r.1 ≡ e.key) ⊎ KeyOf r
    → KeyOf (set_current e w ∷ r.0, r.1)
HasKey-head e w r (inl same) = inl (rw same (beq_refl bytes_key e.key))
HasKey-head e w r (inr later) = inr later

grow-HasKey :
    (es : List Entry) (max : ℤ) (key : Bytes)
    → ((grow es max key).1 ≡ key) ⊎ KeyOf (grow es max key)
grow-HasKey [] max key = inl (unfold grow in refl)
grow-HasKey (e ∷ es) max key = elim (Bool-cases (ltb_ℤ max (grown e))) [
  | inl bigger ↦ inr (
      subst KeyOf (sym (grow-bigger e es max key bigger))
        (HasKey-head e (grown e) (grow es (grown e) e.key) (grow-HasKey es (grown e) e.key)))
  | inr not_bigger ↦
      subst (λ r. (r.1 ≡ key) ⊎ KeyOf r) (sym (grow-not_bigger e es max key not_bigger))
        (elim (grow-HasKey es max key) [
          | inl same ↦ inl same
          | inr later ↦ inr (HasKey-head e (grown e) (grow es max key) (inr later))
        ])
]

grow_first :
    (e : Entry) (es : List Entry)
    → ltb_ℤ min_int (e.current_weight +ℤ pos e.fixed_weight) ≡ true
    → KeyOf (grow (e ∷ es) min_int [])
grow_first e es bigger =
    subst KeyOf (sym (grow-bigger e es min_int [] bigger))
      (HasKey-head e (grown e) (grow es (grown e) e.key) (grow-HasKey es (grown e) e.key))

find_server-cases :
    (servers : List Server) (i : ℕ) (id : Bytes)
    → ((j : ℕ) × (find_server servers i id ≡ chosen j)) ⊎ (find_server servers i id ≡ failed)
unfolding find_server
find_server-cases [] i id = inr refl
find_server-cases (s ∷ rest) i id = elim (Bool-cases (bytes_eq s.id id)) [
  | inl here ↦ rw here (inl (i, refl))
  | inr later ↦ rw later (find_server-cases rest (i + 1) id)
]

-- With fixed weights that add up to 100, a call that names a server leaves the sum of the current
-- weights as it was, and a call that finds no server for the heaviest key leaves them 100 higher.
pub smooth_total :
    (servers : List Server) (e : Entry) (es : List Entry)
    → servers ≢ []
    → fixed_total (e ∷ es) ≡ 100
    → ltb_ℤ min_int (e.current_weight +ℤ pos e.fixed_weight) ≡ true
    → let r = smooth_next servers (e ∷ es) in
      ((i : ℕ) × (r.0 ≡ chosen i) × (current_total r.1 ≡ current_total (e ∷ es)))
      ⊎ ((r.0 ≡ failed) × (current_total r.1 ≡ current_total (e ∷ es) +ℤ pos 100))
unfolding smooth_next
smooth_total [] e es some_server sum above = absurd (some_server refl)
smooth_total (s ∷ rest) e es some_server sum above =
    let listed : (length (s ∷ rest) == 0) ≡ false = ground arith in
    let g = grow (e ∷ es) min_int [] in
    let total : current_total g.0 ≡ current_total (e ∷ es) +ℤ pos 100 =
      grow-total (e ∷ es) min_int [] ∙ ap (λ n. current_total (e ∷ es) +ℤ pos n) sum in
    let charged = charge-total g.1 g.0 (grow_first e es above) in
    rw listed (elim (find_server-cases (s ∷ rest) 0 g.1) [
      | inl (i, found) ↦ rw found (inl (i, refl, charged ∙ rw total (omega int_laws)))
      | inr missing ↦ rw missing (inr (refl, total))
    ])
