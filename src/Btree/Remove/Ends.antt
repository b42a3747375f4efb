-- ===== src/Btree/Remove/Ends.antt =====
-- The last and the first item of a node, which bt_remove puts in the place of a slot.
use libalgo.Common.{
  ℕ, zero, suc, ◌-◌, ◌<◌, ◌≤◌, ◌≡◌, refl, sym, ap, ◌∙◌, List, [], ◌∷◌, ◌++◌, append_assoc,
  append-nil, map, some, length, get_or, get_elem?, take, arith,
}
use libalgo.Btree.{BtNode, slot_of}
use libalgo.Btree.Arrays.{get_elem-Every}
use libalgo.Btree.Weave.{Items, tag, before, after}
use libalgo.Btree.Items.{items, Shape}
use libalgo.Btree.Spot.{items-set}
use libalgo.Btree.Remove.{last_slot, first_slot, min_node_slots}
use libalgo.Btree.Remove.Cut.{tag_last}

get_elem-get_or : (xs : List ℕ) (i : ℕ) → i < length xs → get_elem? xs i ≡ some (get_or xs i 0)
get_elem-get_or [] i l = absurd (omega (arith, l))
get_elem-get_or (x ∷ xs) zero l = refl
get_elem-get_or (x ∷ xs) (suc i) l = get_elem-get_or xs i (omega (arith, l))

after-last : (ss : List ℕ) (cs : List Items) → after (length ss) ss cs ≡ []
after-last [] cs = refl
after-last (s ∷ ss) [] = refl
after-last (s ∷ ss) (c ∷ cs) = after-last ss cs

abbrev pub Final : (h : ℕ) → BtNode h → Type 0
Final h n = (p : ℕ) × (last_slot h n ≡ some p) × ((ys : Items) × (items h n ≡ ys ++ ((p, tt) ∷ [])))

pub last_slot-Final :
    (h low : ℕ) (n : BtNode h) → Shape low h n → 0 < length (slot_of h n) → Final h n
unfolding last_slot slot_of
last_slot-Final zero low n p l = (
  get_or n (length n - 1) 0,
  get_elem-get_or n (length n - 1) (omega (arith, l)),
  (tag (take (length n - 1) n), tag_last n l),
)
last_slot-Final (suc h) low (slot, links) p l =
    let (c, g, q, same) =
      get_elem-Every (Shape min_node_slots h) links (length slot) (omega (arith, p.2)) p.3 in
    let (k, e, w) =
      last_slot-Final h min_node_slots c q (omega (arith, slot-least h min_node_slots c q)) in
    let cs = map (items h) links in
    (
      k,
      rw (last_slot, g) e,
      (
        before (length slot) slot cs ++ w.0,
        ap (λ z. items (suc h) (slot, z)) (sym same)
            ∙ items-set h slot links p.2 (length slot) c (omega arith)
            ∙ ap (λ z. before (length slot) slot cs ++ (items h c ++ z)) (after-last slot cs)
            ∙ ap (λ z. before (length slot) slot cs ++ z) (append-nil (items h c) ∙ w.1)
            ∙ sym (append_assoc (before (length slot) slot cs) (w.0) ((k, tt) ∷ [])),
      ),
    )
  where
    slot-least : (h low : ℕ) (n : BtNode h) → Shape low h n → low ≤ length (slot_of h n)
    slot-least zero low n p = p.0
    slot-least (suc h) low n p = p.0

abbrev pub Initial : (h : ℕ) → BtNode h → Type 0
Initial h n = (p : ℕ) × (first_slot h n ≡ some p) × ((ys : Items) × (items h n ≡ (p, tt) ∷ ys))

pub first_slot-Initial :
    (h low : ℕ) (n : BtNode h) → Shape low h n → 0 < length (slot_of h n) → Initial h n
unfolding first_slot slot_of
first_slot-Initial zero low [] p l = absurd (omega (arith, l))
first_slot-Initial zero low (s ∷ n) p l = (s, refl, (tag n, refl))
first_slot-Initial (suc h) low (slot, links) p l =
    let (c, g, q, same) =
      get_elem-Every (Shape min_node_slots h) links 0 (omega (arith, p.2)) p.3 in
    let (k, e, w) =
      first_slot-Initial h min_node_slots c q (omega (arith, slot-least h min_node_slots c q)) in
    let cs = map (items h) links in
    (
      k,
      rw (first_slot, g) e,
      (
        w.0 ++ after 0 slot cs,
        ap (λ z. items (suc h) (slot, z)) (sym same)
            ∙ items-set h slot links p.2 0 c (omega arith)
            ∙ ap (λ z. z ++ after 0 slot cs) (w.1),
      ),
    )
  where
    slot-least : (h low : ℕ) (n : BtNode h) → Shape low h n → low ≤ length (slot_of h n)
    slot-least zero low n p = p.0
    slot-least (suc h) low n p = p.0
