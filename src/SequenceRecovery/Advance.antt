-- ===== src/SequenceRecovery/Advance.antt =====
-- `advance_node_sequence` of sanlight_mesh/sequence_recovery.py never goes back.
use sanlight_mesh_mqtt_gatew.Base.{
  ◌∙◌, subst, between, pos_part, ℕ, ℤ, pos, negsuc, ◌≤◌, ◌<◌, ◌≡◌, refl, ap, ◌⊎◌, inl, inr, true,
  false, Bool-cases, String, some, ◌∷◌, leb, leb→le, arith, Result, ok, err, require-eq-ok,
  >>=-eq-ok, ok-injective, str_eq,
}
use sanlight_mesh_mqtt_gatew.Value.{Value, null, integer, object, Fields, get, value_or}
use sanlight_mesh_mqtt_gatew.GatewayStore.Dict.{get-put_same, get-put_other}
use sanlight_mesh_mqtt_gatew.SequenceRecovery.{
  Write, not_replaced, replaced_and_failed, replaced, Conversion, type_or_value_error,
  overflow_error, caught, invalid_sequence, invalid_unicast, sequence_out_of_range, with_sequence,
  write_to, atomic_write, Error, holds, backed_up, written, Machine, RecoveryResult, Environment,
  mesh_sequence_max, recovery_target_max, validate_recovery_target, load_node, parse_sequence,
  check_node, parse_unicast, check_loaded, equals, identity_mismatch, write_node, advance_checked,
  advance_node_sequence,
}

-- A target that is accepted.
pub validate_recovery_target_sound :
    (v : ℤ) (n : ℕ)
    → validate_recovery_target v ≡ ok n
    → (v ≡ pos n) × (1 ≤ n) × (n ≤ recovery_target_max)
unfolding validate_recovery_target
validate_recovery_target_sound (negsuc k) n h = cc
validate_recovery_target_sound (pos k) n h =
    let (a, h₁) = require-eq-ok (leb 1 k) _ _ h in
    let (b, h₂) = require-eq-ok (leb k mesh_sequence_max) _ _ h₁ in
    let (c, h₃) = require-eq-ok (leb k recovery_target_max) _ _ h₂ in
    let e : k ≡ n = ok-injective h₃ in rw⁻¹ e (refl, leb→le _ _ a, leb→le _ _ c)

-- The file holds the node as before, but for the sequence number.
pub record Advanced (node after : Fields) (n : ℕ) : Type 0 where
  pub stored : get after "sequenceNumber" ≡ some (integer (pos n))
  pub others : (key : String) → str_eq "sequenceNumber" key ≡ false → get after key ≡ get node key

after_leb : (a b : ℕ) → leb a b ≡ false → b < a
after_leb a b h = ground arith

module _ (env : Environment) where
  -- The node in the file is that of the address, and `int` reads this sequence number in it.
  pub record Stored (m : Machine) (expected_unicast : ℕ) (node : Fields) (n : ℕ) : Type 0 where
    pub loaded : load_node m.file ≡ ok node
    pub unicast :
        env.hex_int (value_or (get node "unicastAddress") null) ≡ ok (pos expected_unicast)
    pub number : env.to_int (value_or (get node "sequenceNumber") (integer (pos 0))) ≡ ok (pos n)

  -- The node was backed up, and then written with a higher number.
  pub record Changed (m n : Machine) (node : Fields) (previous target : ℕ) : Type 0 where
    pub after : Fields
    pub raised : previous < target
    pub file_is : n.file ≡ holds (object after)
    pub log_is : n.log ≡ written after ∷ backed_up node ∷ m.log
    pub advanced : Advanced node after target

  abbrev pub IsTarget : ℤ → ℕ → Type 0
  IsTarget minimum target = (minimum ≡ pos target) × (1 ≤ target) × (target ≤ recovery_target_max)

  -- What became of the file and the log.
  abbrev pub Outcome : ℕ → ℤ → Machine → Machine × Result Error RecoveryResult → Type 0
  Outcome u minimum m (n, err e) =
      ((n.file ≡ m.file) × ((n.log ≡ m.log) ⊎ ((node : Fields) × (n.log ≡ backed_up node ∷ m.log))))
      ⊎ ((node : Fields) × (previous : ℕ) × (target : ℕ) × IsTarget minimum target
          × Stored m u node previous
          × Changed m n node previous target)
  Outcome u minimum m (n, ok r) =
      (node : Fields) × (target : ℕ) × IsTarget minimum target
      × Stored m u node r.previous
      × (((n ≡ m) × (r.changed ≡ false) × (r.current ≡ r.previous) × (target ≤ r.previous))
          ⊎ ((r.changed ≡ true) × (r.current ≡ target) × Changed m n node r.previous target))

  written_lem :
      (m : Machine) (node : Fields) (previous target : ℕ)
      → previous < target
      → Changed m
          (write_to env (with_sequence env node target) (record m { log = backed_up node ∷ m.log }))
          node
          previous
          target
  written_lem m node previous target p = record {
    after = with_sequence env node target;
    raised = p;
    file_is = refl;
    log_is = refl;
    advanced = record {
      stored = get-put_same node "sequenceNumber" (integer (pos target));
      others = λ key d. get-put_other node "sequenceNumber" key (integer (pos target)) d;
    };
  }

  atomic_write-Outcome :
      (u : ℕ) (minimum : ℤ) (m : Machine) (node : Fields) (previous target : ℕ) (w : Write)
      → IsTarget minimum target
      → Stored m u node previous
      → previous < target
      → Outcome u minimum m
          (atomic_write env node previous target (record m { log = backed_up node ∷ m.log }) w)
  atomic_write-Outcome u minimum m node previous target not_replaced t s p =
      inl (refl, inr (node, refl))
  atomic_write-Outcome u minimum m node previous target replaced_and_failed t s p =
      inr (node, previous, target, t, s, written_lem m node previous target p)
  atomic_write-Outcome u minimum m node previous target replaced t s p =
      (node, target, t, s, inr (refl, refl, written_lem m node previous target p))

  write_node-Outcome :
      (u : ℕ) (minimum : ℤ) (m : Machine) (node : Fields) (previous target : ℕ)
      → IsTarget minimum target
      → Stored m u node previous
      → previous < target
      → Outcome u minimum m (write_node env node previous target m)
  unfolding write_node
  write_node-Outcome u minimum m node previous target t s p =
      elim (Bool-cases (env.can_backup m.log)) [
        | inr b ↦ rw b (inl (refl, inl refl))
        | inl b ↦ rw b (
            atomic_write-Outcome u minimum m node previous target
              (env.write (backed_up node ∷ m.log)) t s p)
      ]

  caught_ok :
      {A : Type 0} (e : Error) (r : Result Conversion A) (a : A) → caught e r ≡ ok a → r ≡ ok a
  caught_ok e (ok b) a h = ap ok (ok-injective h)
  caught_ok e (err type_or_value_error) a h = cc
  caught_ok e (err overflow_error) a h = cc

  equals_lem : (a : ℤ) (n : ℕ) → equals a n ≡ true → a ≡ pos n
  equals_lem (pos k) n h = ap pos (ground arith)
  equals_lem (negsuc k) n h = cc

  in_range_lem : (a : ℤ) → between 0 mesh_sequence_max a ≡ true → a ≡ pos (pos_part a)
  in_range_lem (pos k) h = refl
  in_range_lem (negsuc k) h = cc

  sequence_sound : (v : Value) (n : ℕ) → parse_sequence env v ≡ ok n → env.to_int v ≡ ok (pos n)
  unfolding parse_sequence
  sequence_sound v n h =
      let (a, ha, h₁) = >>=-eq-ok (caught invalid_sequence (env.to_int v)) _ h in
      let (b, h₂) = require-eq-ok (between 0 mesh_sequence_max a) sequence_out_of_range _ h₁ in
      let e : pos_part a ≡ n = ok-injective h₂ in
      let p : a ≡ pos n = in_range_lem a b ∙ ap pos e in
      caught_ok invalid_sequence (env.to_int v) a ha ∙ ap ok p

  loaded_sound :
      (m : Machine) (d node : Fields) (u t previous target : ℕ)
      → load_node m.file ≡ ok d
      → check_loaded env d u t ≡ ok (node, previous, target)
      → Stored m u node previous × (t ≡ target)
  unfolding check_loaded parse_unicast
  loaded_sound m d node u t previous target l h =
      let unicast = value_or (get d "unicastAddress") null in
      let number = value_or (get d "sequenceNumber") (integer (pos 0)) in
      let (a, ha, h₁) = >>=-eq-ok (parse_unicast env unicast) _ h in
      let (i, h₂) = require-eq-ok (equals a u) identity_mismatch _ h₁ in
      let (s, hs, h₃) = >>=-eq-ok (parse_sequence env number) (λ s. ok (d, s, t)) h₂ in
      let every : (d, s, t) ≡ (node, previous, target) = ok-injective h₃ in
      let here : Stored m u d s = record {
        loaded = l;
        unicast = caught_ok invalid_unicast (env.hex_int unicast) a ha ∙ ap ok (equals_lem a u i);
        number = sequence_sound number s hs;
      } in
      (
        subst (λ (p : Fields × ℕ × ℕ). Stored m u p.0 p.1) every here,
        ap (λ (p : Fields × ℕ × ℕ). p.2) every,
      )

  checked-Outcome :
      (u : ℕ) (minimum : ℤ) (m : Machine) (r : Result Error (Fields × ℕ × ℕ))
      → check_node env m.file u minimum ≡ r
      → Outcome u minimum m (advance_checked env r m)
  unfolding advance_checked check_node
  checked-Outcome u minimum m (err e) h = inl (refl, inl refl)
  checked-Outcome u minimum m (ok (node, previous, target)) h =
      let (t, ht, h₁) = >>=-eq-ok (validate_recovery_target minimum) _ h in
      let (d, hd, h₂) = >>=-eq-ok (load_node m.file) (λ d. check_loaded env d u t) h₁ in
      let (s, same) = loaded_sound m d node u t previous target hd h₂ in
      let (e, lo, hi) = validate_recovery_target_sound minimum target (rw⁻¹ same ht) in
      elim (Bool-cases (leb target previous)) [
        | inl g ↦ rw g (node, target, (e, lo, hi), s, inl (refl, refl, refl, leb→le _ _ g))
        | inr g ↦
            rw g
              (write_node-Outcome u minimum m node previous target (e, lo, hi) s (after_leb _ _ g))
      ]

  -- The sequence number never goes back, the minimum is 1 to 0xBFFFFF, and the node in the file has the
  -- expected address. If it returns, the previous number is the one in the node: either it reached the
  -- minimum and nothing was changed, or it was below, the node was backed up, and then written with the
  -- minimum and everything else as it was. If it raises, the file is unchanged, or it was written in just
  -- this way before the error.
  pub advance_node_sequence-Outcome :
      (expected_unicast : ℕ) (minimum : ℤ) (m : Machine)
      → Outcome expected_unicast minimum m (advance_node_sequence env expected_unicast minimum m)
  unfolding advance_node_sequence
  advance_node_sequence-Outcome u minimum m = checked-Outcome u minimum m _ refl
