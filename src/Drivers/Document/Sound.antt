-- ===== src/Drivers/Document/Sound.antt =====
-- What the later steps may rely on of a driver that `parse` of drivers/document.py returns.
use emi_analyzer.Base.{
  ℕ, ◌-◌, ◌≤◌, Bool, true, false, not, Option, List, [], ◌∷◌, ◌≡◌, refl, sym, ap, ◌∙◌, length, ltb,
  Text, codes, strip, All, Bool-cases, inl, inr, arith,
}
use emi_analyzer.Base.Results.{
  Result, ok, guard, or_raise, map_results, Ensures, Ensures-bind, Ensures-eq-ok, Ensures-imp,
  guard-eq-ok, ok_inj,
}
use emi_analyzer.Base.Json.{
  find_word, pos, Floats, Json, Fields, get, has, as_dict, as_list, as_text, as_number, is_text,
  zero_f, is_not_positive,
}
use emi_analyzer.Drivers.Spectrum.{
  not_an_object, too_large, wrong_format, no_name, unknown_kind, unknown_role, bad_net, no_numbers,
  Trapezoid, validate, no_block, too_few, too_many, bad_sample, bad_interval, overflow,
  bad_bandwidth, bad_rbw, short_capture, negative_impedance, not_increasing,
}
use emi_analyzer.Drivers.Document.{
  is_empty, no_values, too_big, check_version, kinds, roles, role_of, text_or_none, Kind, trapezoid,
  waveform, spectrum, Role, signal, switching_regulator, Sourced, Payload, empty, samples, points,
  Driver, value_of, read_values, read_value, read_trapezoid, read_waveform, read_spectrum,
  read_point, read_optional, float_or_none, to_float_or_raise, read_if_there, read_body,
  read_regulator, increasing, parse, no_values, trapezoid_fields, make_trapezoid,
  source_impedance_ohm, max_samples,
}
use emi_analyzer.Drivers.Document.Values.{
  IsThere, Extends, HasAll, read_value-IsThere, read_values-IsThere, value_of-IsThere,
  make_trapezoid-HasAll,
}

module _ (X : Floats) where
  open X use {Float, lt, mul, whole}

  -- What a kind needs of the values and of the payload.
  abbrev pub IsBody : Kind → List (Text × Sourced X) → Payload X → Type 0
  IsBody trapezoid vs p =
      HasAll X vs × ((t : Trapezoid X) × (make_trapezoid X vs ≡ ok t) × (validate X t ≡ ok tt))
  IsBody waveform vs (samples v i b) =
      IsThere X (codes "period_s") vs × IsThere X (codes "source_impedance_ohm") vs × (2 ≤ length v)
  IsBody waveform vs _ = ⊥
  IsBody spectrum vs (points ps r) =
      IsThere X (codes "source_impedance_ohm") vs × (2 ≤ length ps) × (increasing X ps ≡ true)
  IsBody spectrum vs _ = ⊥

  length-map_results {ℓ κ} :
      {E : Type 0} {A : Type ℓ} {B : Type κ} (f : A → Result E B) (xs : List A)
      → Ensures (λ ys. length ys ≡ length xs) (map_results f xs)
  unfolding map_results
  length-map_results f [] = refl
  length-map_results f (x ∷ xs) = Ensures-bind _ (f x) _ (λ y _.
      Ensures-bind _ (map_results f xs) _ (λ ys e.
        let h = Ensures-eq-ok _ (map_results f xs) (length-map_results f xs) e in omega (arith, h)))

  read_trapezoid-IsBody :
      (doc : Fields Float) → Ensures (λ b. IsBody trapezoid b.0 b.1) (read_trapezoid X doc)
  unfolding read_trapezoid
  read_trapezoid-IsBody doc =
      Ensures-bind _ (or_raise (as_dict (get (codes "trapezoid") doc)) no_block) _ (λ body _.
        Ensures-bind _ (read_values X body [] trapezoid_fields) _ (λ vs e.
          Ensures-bind _ (make_trapezoid X vs) _ (λ t made.
            Ensures-bind _ (validate X t) _ (λ _ valid.
              Ensures-bind _ (value_of X (codes "source_impedance_ohm") vs) _ (λ z _.
                Ensures-bind _ (guard (not (lt z (zero_f X))) negative_impedance) _ (λ _ _.
                  let (all, _) =
                    Ensures-eq-ok _ (read_values X body [] trapezoid_fields)
                      (read_values-IsThere X body [] trapezoid_fields) e in
                  (all, (t, made, valid))))))))

  enough : (n : ℕ) → not (ltb n 2) ≡ true → 2 ≤ n
  enough n h = ground arith

  read_if_there-Extends :
      (body : Fields Float) (vs : List (Text × Sourced X)) (k : Text)
      → Ensures (λ ws. Extends X vs ws) (read_if_there X body vs k)
  read_if_there-Extends body vs k = elim (Bool-cases (has k body)) [
    | inl there ↦
        rw there
          (Ensures-imp _ _ (read_value X body vs k) (λ ws h. h.1) (read_value-IsThere X body vs k))
    | inr absent ↦ rw absent (λ j s h. h)
  ]

  read_waveform-IsBody :
      (doc : Fields Float) → Ensures (λ b. IsBody waveform b.0 b.1) (read_waveform X doc)
  unfolding read_waveform
  read_waveform-IsBody doc =
      let keys : List Text = codes "period_s" ∷ codes "source_impedance_ohm" ∷ [] in
      Ensures-bind _ (or_raise (as_dict (get (codes "waveform") doc)) no_block) _ (λ body _.
        Ensures-bind _ (or_raise (as_list (get (codes "samples_v") body)) too_few) _ (λ raw _.
          Ensures-bind _ (guard (not (ltb (length raw) 2)) too_few) _ (λ _ two.
            Ensures-bind _ (guard (not (ltb max_samples (length raw))) too_many) _ (λ _ _.
              Ensures-bind _ (map_results (λ s. or_raise (as_number s) bad_sample) raw) _
                (λ numbers en.
                  Ensures-bind _
                    (or_raise (as_number (get (codes "sample_interval_s") body)) bad_interval) _
                    (λ interval _.
                      Ensures-bind _ (guard (not (is_not_positive X interval)) bad_interval) _
                        (λ _ _. Ensures-bind _ (read_values X body [] keys) _ (λ vs ev.
                          Ensures-bind _ (to_float_or_raise X interval) _ (λ i _.
                            Ensures-bind _ (or_raise (whole (pos (length raw - 1))) overflow) _
                              (λ gaps _.
                                Ensures-bind _ (value_of X (codes "period_s") vs) _ (λ period _.
                                  Ensures-bind _
                                    (guard (not (lt (mul gaps i) period)) short_capture) _
                                    (λ _ _.
                                      Ensures-bind _
                                        (read_optional X (get (codes "bandwidth_hz") body)
                                          bad_bandwidth)
                                        _
                                        (λ bandwidth _.
                                          Ensures-bind _ (read_if_there X body vs (codes "rise_s"))
                                            _
                                            (λ ws ew.
                                              Ensures-bind _
                                                (map_results (to_float_or_raise X) numbers) _
                                                (λ v el.
                                                  Ensures-bind _ (float_or_none X bandwidth) _
                                                    (λ b _.
                                                      let (there, _) =
                                                        Ensures-eq-ok _ (read_values X body [] keys)
                                                          (read_values-IsThere X body [] keys) ev in
                                                      let kept =
                                                        Ensures-eq-ok _
                                                          (read_if_there X body vs (codes "rise_s"))
                                                          (read_if_there-Extends body vs
                                                            (codes "rise_s"))
                                                          ew in
                                                      let count =
                                                        Ensures-eq-ok _
                                                          (map_results
                                                            (λ s. or_raise (as_number s) bad_sample)
                                                            raw)
                                                          (length-map_results
                                                            (λ s. or_raise (as_number s) bad_sample)
                                                            raw)
                                                          en in
                                                      let same =
                                                        Ensures-eq-ok _
                                                          (map_results (to_float_or_raise X)
                                                            numbers)
                                                          (length-map_results (to_float_or_raise X)
                                                            numbers)
                                                          el in
                                                      let least =
                                                        enough (length raw) (guard-eq-ok _ _ two) in
                                                      (
                                                        (there.0.0, kept _ _ there.0.1),
                                                        (there.1.0.0, kept _ _ there.1.0.1),
                                                        omega (arith, count, same, least),
                                                      )))))))))))))))))

  read_spectrum-IsBody :
      (doc : Fields Float) → Ensures (λ b. IsBody spectrum b.0 b.1) (read_spectrum X doc)
  unfolding read_spectrum
  read_spectrum-IsBody doc =
      let keys : List Text = codes "source_impedance_ohm" ∷ [] in
      Ensures-bind _ (or_raise (as_dict (get (codes "spectrum") doc)) no_block) _ (λ body _.
        Ensures-bind _ (or_raise (as_list (get (codes "points") body)) too_few) _ (λ raw _.
          Ensures-bind _ (guard (not (ltb (length raw) 2)) too_few) _ (λ _ two.
            Ensures-bind _ (guard (not (ltb max_samples (length raw))) too_many) _ (λ _ _.
              Ensures-bind _ (map_results (read_point X) raw) _ (λ ps ep.
                Ensures-bind _ (guard (increasing X ps) not_increasing) _ (λ _ up.
                  Ensures-bind _ (read_values X body [] keys) _ (λ vs ev.
                    Ensures-bind _ (read_optional X (get (codes "rbw_hz") body) bad_rbw) _ (λ rbw _.
                      Ensures-bind _ (float_or_none X rbw) _ (λ r _.
                        let (there, _) =
                          Ensures-eq-ok _ (read_values X body [] keys)
                            (read_values-IsThere X body [] keys) ev in
                        let same =
                          Ensures-eq-ok _ (map_results (read_point X) raw)
                            (length-map_results (read_point X) raw) ep in
                        let least = enough (length raw) (guard-eq-ok _ _ two) in
                        (there.0, omega (arith, same, least), guard-eq-ok _ _ up))))))))))

  read_body-IsBody :
      (k : Kind) (doc : Fields Float) → Ensures (λ b. IsBody k b.0 b.1) (read_body X k doc)
  read_body-IsBody trapezoid doc = read_trapezoid-IsBody doc
  read_body-IsBody waveform doc = read_waveform-IsBody doc
  read_body-IsBody spectrum doc = read_spectrum-IsBody doc

  read_regulator-Extends :
      (r : Role) (doc : Fields Float) (vs : List (Text × Sourced X))
      → Ensures (λ ws. Extends X vs ws) (read_regulator X r doc vs)
  read_regulator-Extends signal doc vs = λ k s h. h
  read_regulator-Extends switching_regulator doc vs =
      let keys : List Text = codes "input_current_a" ∷ codes "input_voltage_v" ∷ [] in
      Ensures-imp _ _ (read_values X doc vs keys) (λ ws h. h.1) (read_values-IsThere X doc vs keys)

  All-Extends :
      (vs ws : List (Text × Sourced X)) (ks : List Text)
      → Extends X vs ws
      → All (λ k. IsThere X k vs) ks
      → All (λ k. IsThere X k ws) ks
  All-Extends vs ws [] kept h = tt
  All-Extends vs ws (k ∷ ks) kept ((s, e), h) = ((s, kept k s e), All-Extends vs ws ks kept h)

  -- More values do no harm.
  IsBody-Extends :
      (k : Kind) (vs ws : List (Text × Sourced X)) (p : Payload X)
      → Extends X vs ws
      → IsBody k vs p
      → IsBody k ws p
  IsBody-Extends trapezoid vs ws p kept (all, (t, made, valid)) =
      let (t', made', later) = make_trapezoid-HasAll X vs ws all kept in
      let same : t' ≡ t = ok_inj (sym made' ∙ made) in
      (All-Extends vs ws trapezoid_fields kept all, (t, later ∙ ap (λ x. ok x) same, valid))
  IsBody-Extends waveform vs ws empty kept h = h
  IsBody-Extends waveform vs ws (samples v i b) kept (period, impedance, two) =
      ((period.0, kept _ _ period.1), (impedance.0, kept _ _ impedance.1), two)
  IsBody-Extends waveform vs ws (points ps r) kept h = h
  IsBody-Extends spectrum vs ws empty kept h = h
  IsBody-Extends spectrum vs ws (samples v i b) kept h = h
  IsBody-Extends spectrum vs ws (points ps r) kept (impedance, two, up) =
      ((impedance.0, kept _ _ impedance.1), two, up)

  -- Every kind has its source impedance.
  impedance-IsBody :
      (k : Kind) (vs : List (Text × Sourced X)) (p : Payload X)
      → IsBody k vs p
      → IsThere X (codes "source_impedance_ohm") vs
  impedance-IsBody trapezoid vs p (all, rest) = all.1.1.1.1.1.0
  impedance-IsBody waveform vs empty h = absurd h
  impedance-IsBody waveform vs (samples v i b) h = h.1
  impedance-IsBody waveform vs (points ps r) h = absurd h
  impedance-IsBody spectrum vs empty h = absurd h
  impedance-IsBody spectrum vs (samples v i b) h = absurd h
  impedance-IsBody spectrum vs (points ps r) h = h.0

  abbrev pub IsParsed : Driver X → Type 0
  IsParsed d = IsBody d.kind d.values d.payload × (no_values X d.values ≡ false)

  negated : (b : Bool) → not b ≡ true → b ≡ false
  negated b h = ground arith

  pub parse-IsParsed : (j : Json Float) (bytes : Option ℕ) → Ensures IsParsed (parse X j bytes)
  unfolding parse
  parse-IsParsed j bytes = Ensures-bind _ (or_raise (as_dict j) not_an_object) _ (λ doc _.
      Ensures-bind _ (guard (not (too_big X bytes)) too_large) _ (λ _ _.
        Ensures-bind _
          (guard (is_text (codes "emi-driver") (get (codes "format") doc)) wrong_format) _
          (λ _ _. Ensures-bind _ (check_version X (get (codes "version") doc)) _ (λ _ _.
            Ensures-bind _ (or_raise (as_text (get (codes "name") doc)) no_name) _ (λ name _.
              Ensures-bind _ (guard (not (is_empty X (strip name))) no_name) _ (λ _ _.
                Ensures-bind _ (or_raise (find_word kinds (get (codes "kind") doc)) unknown_kind) _
                  (λ k _.
                    Ensures-bind _ (or_raise (find_word roles (role_of X doc)) unknown_role) _
                      (λ r _.
                        Ensures-bind _ (text_or_none X (get (codes "net") doc) bad_net) _ (λ net _.
                          Ensures-bind _ (read_body X k doc) _ (λ (vs, p) eb.
                            Ensures-bind _ (read_regulator X r doc vs) _ (λ ws ew.
                              Ensures-bind _ (guard (not (no_values X ws)) no_numbers) _
                                (λ _ some_value.
                                  let body =
                                    Ensures-eq-ok _ (read_body X k doc) (read_body-IsBody k doc)
                                      eb in
                                  let kept =
                                    Ensures-eq-ok _ (read_regulator X r doc vs)
                                      (read_regulator-Extends r doc vs) ew in
                                  (
                                    IsBody-Extends k vs ws p kept body,
                                    negated _ (guard-eq-ok _ _ some_value),
                                  )))))))))))))

  -- A driver that `parse` returns has its source impedance. One that is a trapezoid has its six values, and
  -- they make a pulse train that `validate` accepts; a waveform has its period and two samples or more; a
  -- spectrum has two points or more, and none at or below the frequency of the point before it.
  pub parse-IsBody :
      (j : Json Float) (bytes : Option ℕ) (d : Driver X)
      → parse X j bytes ≡ ok d
      → ((z : Float) × (source_impedance_ohm X d ≡ ok z)) × IsBody d.kind d.values d.payload
  unfolding source_impedance_ohm
  parse-IsBody j bytes d e =
      let (body, _) = Ensures-eq-ok _ (parse X j bytes) (parse-IsParsed j bytes) e in
      (value_of-IsThere X _ d.values (impedance-IsBody d.kind d.values d.payload body), body)
