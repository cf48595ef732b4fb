-- ===== src/Gerber/Netlist/Groups.antt =====
-- `nets` and `by_net` of gerber/ipcd356.py are two views of the points.
use emi_analyzer.Base.{
  Bool, true, false, List, [], ◌∷◌, ◌++◌, ◌≡◌, refl, sym, ap, ◌∙◌, inl, inr, append-nil,
  append_assoc, if◌then◌else◌, Text, text_eq, text_eq_iff, contains, Bool-cases,
}
use emi_analyzer.Base.Json.{Floats}
use emi_analyzer.Gerber.Records.{Digits}
use emi_analyzer.Gerber.Netlist.{
  NetPoint, Netlist, see, nets_from, nets, add_to, group_from, by_net,
}

module _ (D : Digits) (X : Floats) where
  abbrev Groups : Type 0
  Groups = List (Text × List (NetPoint D X))

  abbrev pub keys : Groups → List Text
  keys [] = []
  keys ((net, ps) ∷ groups) = net ∷ keys groups

  -- `by_net().get(net, [])`
  abbrev pub group : Text → Groups → List (NetPoint D X)
  group net [] = []
  group net ((k, ps) ∷ groups) = if text_eq k net then ps else group net groups

  -- The points of one net, in the order of the file.
  abbrev pub points_of : Text → List (NetPoint D X) → List (NetPoint D X)
  points_of net [] = []
  points_of net (p ∷ ps) = if text_eq p.net net then p ∷ points_of net ps else points_of net ps

  keys-add_to :
      (p : NetPoint D X) (groups : Groups)
      → keys (add_to D X p groups) ≡ see D X p.net (keys groups)
  keys-add_to p [] = refl
  keys-add_to p ((net, ps) ∷ groups) = elim (Bool-cases (text_eq net p.net)) [
    | inl same ↦ rw same refl
    | inr other ↦ elim (Bool-cases (contains (keys groups) p.net)) [
      | inl there ↦ rw (other, keys-add_to p groups, there) refl
      | inr new ↦ rw (other, keys-add_to p groups, new) refl
    ]
  ]

  keys-group_from :
      (groups : Groups) (ps : List (NetPoint D X))
      → keys (group_from D X groups ps) ≡ nets_from D X (keys groups) ps
  keys-group_from groups [] = refl
  keys-group_from groups (p ∷ ps) =
      keys-group_from (add_to D X p groups) ps
      ∙ ap (λ seen. nets_from D X seen ps) (keys-add_to p groups)

  if_cons :
      (b : Bool) (p : NetPoint D X) (ps : List (NetPoint D X))
      → (if b then p ∷ [] else []) ++ ps ≡ (if b then p ∷ ps else ps)
  if_cons true p ps = refl
  if_cons false p ps = refl

  clash : false ≡ true → ⊥
  clash e = cc

  differs : (k t net : Text) → text_eq k t ≡ false → text_eq k net ≡ true → text_eq t net ≡ false
  differs k t net other here = elim (Bool-cases (text_eq t net)) [
    | inl e ↦ absurd (clash (sym other ∙ ap (text_eq k) ((text_eq_iff t net).0 e) ∙ here))
    | inr e ↦ e
  ]

  if_group :
      (b : Bool) (p : NetPoint D X) (ps rest : List (NetPoint D X))
      → (if b then ps ++ p ∷ [] else rest) ≡ (if b then ps else rest) ++ (if b then p ∷ [] else [])
  if_group true p ps rest = refl
  if_group false p ps rest = sym (append-nil rest)

  -- A point goes to the group of its net, and to no other.
  group-add_to :
      (net : Text) (p : NetPoint D X) (groups : Groups)
      → group net (add_to D X p groups) ≡ group net groups ++ points_of net (p ∷ [])
  group-add_to net p [] = refl
  group-add_to net p ((k, ps) ∷ groups) = elim (Bool-cases (text_eq k p.net)) [
    | inl same ↦
        let e : text_eq p.net net ≡ text_eq k net =
          ap (λ t. text_eq t net) (sym ((text_eq_iff k p.net).0 same)) in
        rw (same, e) (if_group (text_eq k net) p ps (group net groups))
    | inr other ↦ elim (Bool-cases (text_eq k net)) [
      | inl here ↦ rw (other, here, differs k p.net net other here) (sym (append-nil ps))
      | inr elsewhere ↦ rw (other, elsewhere) (group-add_to net p groups)
    ]
  ]

  group-group_from :
      (net : Text) (groups : Groups) (ps : List (NetPoint D X))
      → group net (group_from D X groups ps) ≡ group net groups ++ points_of net ps
  group-group_from net groups [] = sym (append-nil (group net groups))
  group-group_from net groups (p ∷ ps) =
      group-group_from net (add_to D X p groups) ps
      ∙ ap (λ g. g ++ points_of net ps) (group-add_to net p groups)
      ∙ append_assoc (group net groups) (points_of net (p ∷ [])) (points_of net ps)
      ∙ ap (λ g. group net groups ++ g) (if_cons (text_eq p.net net) p (points_of net ps))

  -- `by_net` has one group for each name of `nets`, in the same order. The group of a net is the list of the
  -- points of that net, in the order of the file, and is empty for a name that no point has.
  pub by_net-nets :
      (n : Netlist D X)
      → (keys (by_net D X n) ≡ nets D X n)
        × ((net : Text) → group net (by_net D X n) ≡ points_of net n.points)
  unfolding by_net nets
  by_net-nets n = (keys-group_from [] n.points, λ net. group-group_from net [] n.points)
