-- ===== src/Completeness/Exact.antt =====
-- Each part of `check` of compliance/completeness.py, and the whole, against what it asks for.
use emi_analyzer.Base.{
  contains, ◌≤◌, Bool, true, false, ◌||◌, ◌&&◌, Option, none, some, List, [], ◌∷◌, ◌≡◌, ◌≢◌, ◌↔◌,
  refl, arith, length, ltb, if◌then◌else◌, Text, text_eq, codes, All, Bool-cases, inl, inr,
}
use emi_analyzer.Base.Sorting.{sorted, text_le, sorted_set, All-sorted, All-sorted_set}
use emi_analyzer.Completeness.Comparisons.{Floats}
use emi_analyzer.Completeness.{
  gap, problem, driver_net, sources, band, harmonic, solve_tab, drivers_tab, Declaration, Modelled,
  lookup, is_empty, Inputs, Gaps, for_each, is_covered, uncovered, driver_gaps, declared_type,
  declared_length, other_cable, other_length, named_gaps, declared_gaps, connector_gaps, port_gaps,
  is_uncovered, band_gaps, is_scanned, harmonic_gaps, power_gaps, check, complete, key_le, float_le,
}
use emi_analyzer.Completeness.Ready.{
  append_iff, iff_trans, All-iff, unless_iff, when_iff, for_each_iff, IsCarried, IsNamed, IsDecided,
  IsSolvedOver, IsReady,
}

module _ (X : Floats) where
  open X use {Float}

  problems_iff :
      (ps : List Text) → (for_each X (λ k. gap X (problem k) solve_tab) ps ≡ []) ↔ (ps ≡ [])
  problems_iff [] = (λ h. refl, λ h. refl)
  problems_iff (p ∷ ps) = (λ h. cc, λ h. cc)

  uncovered_iff :
      (ds : List (Option Text)) (nets : List Text)
      → All (λ net. gap X (driver_net net) drivers_tab ≡ []) (uncovered X ds nets)
        ↔ All (λ net. is_covered X ds net ≡ true) nets
  uncovered_iff ds [] = (λ h. h, λ h. h)
  uncovered_iff ds (n ∷ nets) =
      let (there, back) = uncovered_iff ds nets in
      elim (Bool-cases (is_covered X ds n)) [
        | inl with_driver ↦ rw with_driver (λ h. (refl, there h), λ h. back h.1)
        | inr without ↦ rw without (λ h. cc (h.0), λ h. cc (h.0))
      ]

  drivers_iff :
      (ds : List (Option Text)) (nets : List Text)
      → (driver_gaps X ds nets ≡ []) ↔ ((ds ≢ []) × All (λ net. is_covered X ds net ≡ true) nets)
  unfolding driver_gaps
  drivers_iff [] nets = (λ h. cc, λ h. absurd (h.0 refl))
  drivers_iff (d ∷ ds) nets =
      let f = λ (net : Text). gap X (driver_net net) drivers_tab in
      let (there, back) = iff_trans (for_each_iff X f (sorted_set (uncovered X (d ∷ ds) nets))) (
        iff_trans (All-sorted_set (λ net. f net ≡ []) (uncovered X (d ∷ ds) nets))
          (uncovered_iff (d ∷ ds) nets)) in
      (λ h. (λ e. cc, there h), λ h. back h.1)

  sources_iff :
      (solved : Bool) (ports : List Text)
      → solved ≡ true
      → ((if solved && ltb 1 (length ports) then gap X sources solve_tab else []) ≡ [])
        ↔ (length ports ≤ 1)
  sources_iff solved ports h = rw h (λ e. ground arith, λ e. ground arith)

  declared_iff :
      (ref t : Text) (len : Option Float) (m : Option (Modelled Float))
      → (declared_gaps X ref t len m ≡ []) ↔ IsCarried X t len m
  declared_iff ref t len none = (λ h. cc, λ h. absurd h)
  declared_iff ref t len (some m) = elim (Bool-cases (other_cable X t m.cable_id)) [
    | inl other ↦ rw other (λ h. cc, λ h. cc (h.0))
    | inr same ↦ elim (Bool-cases (other_length X len m.length_m)) [
      | inl longer ↦ rw (same, longer) (λ h. cc, λ h. cc (h.1))
      | inr alike ↦ rw (same, alike) (λ h. (refl, refl), λ h. refl)
    ]
  ]

  IsNamed-iff :
      (ref : Text) (t : Option Text) (len : Option Float) (m : Option (Modelled Float))
      → (named_gaps X ref t len m ≡ []) ↔ IsNamed X t len m
  IsNamed-iff ref none len m = (λ h. tt, λ h. refl)
  IsNamed-iff ref (some t) len m =
      let (there, back) = declared_iff ref t len m in
      elim (Bool-cases (is_empty t || text_eq t (codes "none"))) [
        | inl no_cable ↦ rw no_cable (λ h. inl refl, λ h. refl)
        | inr cabled ↦
            rw cabled (λ h. inr (there h), λ h. elim h [ inl e ↦ cc | inr carried ↦ back carried ])
      ]

  connector_iff :
      (ref : Text) (d : Option (Declaration Float)) (m : Option (Modelled Float))
      → (connector_gaps X d m ref ≡ []) ↔ IsDecided X d m
  unfolding connector_gaps
  connector_iff ref none none = (λ h. cc, λ h. absurd h)
  connector_iff ref none (some m) = (λ h. tt, λ h. refl)
  connector_iff ref (some d) m = IsNamed-iff ref (declared_type X d) (declared_length X d) m

  connectors_iff :
      (c : Inputs X)
      → (for_each X
            (λ ref.
              connector_gaps X (lookup ref c.cable_assignments) (lookup ref c.modelled_cables) ref)
            (sorted text_le c.connectors)
          ≡ [])
        ↔ All
            (λ ref. IsDecided X (lookup ref c.cable_assignments) (lookup ref c.modelled_cables))
            c.connectors
  connectors_iff c =
      let f = λ (ref : Text).
        connector_gaps X (lookup ref c.cable_assignments) (lookup ref c.modelled_cables) ref in
      iff_trans (for_each_iff X f (sorted text_le c.connectors)) (
        iff_trans (All-sorted text_le (λ ref. f ref ≡ []) c.connectors) (
          All-iff c.connectors (λ ref.
            connector_iff ref (lookup ref c.cable_assignments) (lookup ref c.modelled_cables))))

  ports_iff :
      (recorded ports : List Text)
      → (for_each X (port_gaps X recorded) ports ≡ [])
        ↔ All (λ port. contains recorded port ≡ true) ports
  ports_iff recorded ports =
      iff_trans (for_each_iff X (port_gaps X recorded) ports)
        (All-iff ports (λ port. unless_iff (contains recorded port) _))

  bands_iff :
      (band_of : Option (Float × Float)) (covered : List (Text × (Float × Float)))
      → (band_gaps X true band_of covered ≡ []) ↔ IsSolvedOver X band_of covered
  unfolding band_gaps
  bands_iff none covered = (λ h. cc, λ h. absurd h)
  bands_iff (some required) covered =
      let f = λ (p : Text × (Float × Float)).
        if is_uncovered X required p.1 then gap X (band p.0) solve_tab else [] in
      iff_trans (for_each_iff X f (sorted (key_le X) covered)) (
        iff_trans (All-sorted (key_le X) (λ p. f p ≡ []) covered)
          (All-iff covered (λ p. when_iff (is_uncovered X required p.1) _)))

  harmonics_iff :
      (band_of : Option (Float × Float)) (hs : List Float)
      → (harmonic_gaps X band_of hs ≡ []) ↔ All (λ f. is_scanned X band_of f ≡ false) hs
  unfolding harmonic_gaps
  harmonics_iff band_of hs =
      let f =
        λ (h : Float). if is_scanned X band_of h then gap X (harmonic h) drivers_tab else [] in
      iff_trans (for_each_iff X f (sorted (float_le X) hs)) (
        iff_trans (All-sorted (float_le X) (λ h. f h ≡ []) hs)
          (All-iff hs (λ h. when_iff (is_scanned X band_of h) _)))

  power_iff :
      (p : Text) (found : Bool)
      → (power_gaps X p found ≡ [])
        ↔ ((is_empty p ≡ false) × ((text_eq p (codes "dc") || found) ≡ true))
  unfolding power_gaps
  power_iff p found = elim (Bool-cases (is_empty p)) [
    | inl missing ↦ rw missing (λ h. cc, λ h. cc (h.0))
    | inr given ↦ elim (Bool-cases (text_eq p (codes "dc"))) [
      | inl dc ↦ rw (given, dc) (λ h. (refl, refl), λ h. refl)
      | inr mains ↦ elim (Bool-cases found) [
        | inl there ↦ rw (given, mains, there) (λ h. (refl, refl), λ h. refl)
        | inr absent ↦ rw (given, mains, absent) (λ h. cc, λ h. cc (h.1))
      ]
    ]
  ]

  complete_iff_nil : (gaps : Gaps X) → (complete X gaps ≡ true) ↔ (gaps ≡ [])
  unfolding complete
  complete_iff_nil [] = (λ h. refl, λ h. refl)
  complete_iff_nil (g ∷ gaps) = (λ h. cc, λ h. cc)

  check_iff : (c : Inputs X) → c.has_solve ≡ true → (check X c ≡ []) ↔ IsReady X c
  unfolding check
  check_iff c solved =
      let (there, back) = append_iff (unless_iff c.has_solve _) (
        append_iff (problems_iff c.problems) (
          append_iff (drivers_iff c.drivers c.source_nets) (
            append_iff (sources_iff c.has_solve c.excited_ports solved) (
              append_iff (connectors_iff c) (
                append_iff (ports_iff c.far_field_ports c.excited_ports) (
                  append_iff (rw solved (bands_iff c.required_band c.covered)) (
                    append_iff (harmonics_iff c.required_band c.undriven_harmonics) (
                      append_iff (when_iff (text_eq c.enclosure (codes "metal")) _)
                        (power_iff c.power c.power_entry_found))))))))) in
      (
        λ h.
            let (a, (b, (d, (e, (f, (g, (i, (j, (k, l))))))))) = there h in
            record {
              solved = a;
              sound = b;
              driven = d.0;
              nets_driven = d.1;
              one_source = e;
              cables = f;
              far_fields = g;
              scanned = i;
              harmonics = j;
              not_metal = k;
              powered = l.0;
              entry = l.1;
            },
        λ h. back (
          h.solved,
          (
            h.sound,
            (
              (h.driven, h.nets_driven),
              (
                h.one_source,
                (
                  h.cables,
                  (h.far_fields, (h.scanned, (h.harmonics, (h.not_metal, (h.powered, h.entry))))),
                ),
              ),
            ),
          ),
        ),
      )

  unsolved : (c : Inputs X) → c.has_solve ≡ false → check X c ≢ []
  unfolding check
  unsolved c h e = cc (h, e)

  -- A result is complete, and so carries a margin, exactly where every input that the gate lists
  -- holds: no gap is left out and none is invented, whatever the order of the inputs.
  pub complete_iff : (c : Inputs X) → (complete X (check X c) ≡ true) ↔ IsReady X c
  complete_iff c = elim (Bool-cases c.has_solve) [
    | inl solved ↦ iff_trans (complete_iff_nil (check X c)) (check_iff c solved)
    | inr not_solved ↦ (
      λ h. absurd (unsolved c not_solved ((complete_iff_nil (check X c)).0 h)),
      λ h. cc (not_solved, h.solved),
    )
  ]
