-- ===== src/Usb/Adb/Effect/Ends.antt =====
-- core/usb/adb.go, effect: how the launch of adbd ends.
use wifi_stick_usb_switcher.Prelude.{
  ℕ, zero, suc, ◌+◌, ◌*◌, ◌≤◌, Bool, true, false, ◌&&◌, [], ◌∷◌, ◌++◌, Option, none, some, ◌≡◌, ◌⊎◌,
  inl, inr, refl, arith, ltb, Bool-cases, Option-cases, if◌then◌else◌,
}
use wifi_stick_usb_switcher.Prelude.Result.{Result, ok, err}
use wifi_stick_usb_switcher.Prelude.Text.{Bytes, bytes_eq}
use wifi_stick_usb_switcher.Prelude.Decimal.{itoa}
use wifi_stick_usb_switcher.Usb.Adb.Identity.{
  AdbdIdentity, IdentityError, identity_env, resolve_adbd_identity,
}
use wifi_stick_usb_switcher.Usb.Adb.Envs.{merge_envs}
use wifi_stick_usb_switcher.Usb.Adb.Effect.{
  UsbGadgetAdb, Launch, AdbHost, World, EffectError, no_instance, attrs_failed, strs_failed,
  mkdir_failed, mount_failed, no_adbd, bad_identity, chmod_failed, chown_failed, start_failed,
  exited, timed_out, adbd_pid_file, kill_adbd, with_outside, dropped, ep1, wait_ready, started,
  launch_plain, launch_as, launch_identity, mounted, effect,
}

-- What the poll relies on: the tick of number `k` comes no earlier than `k` times 20 milliseconds
-- after the start of the ticker. Two ticks may come at once where the first was late.
abbrev pub IsTicking : {W : Type 0} → AdbHost W → Type 0
IsTicking host = (start k : ℕ) (w : _) → start + 20 * k ≤ host.now (host.tick start k w)

-- The process is one that `Start` has started.
abbrev pub IsStarted : {W : Type 0} → AdbHost W → ℕ → Type 0
IsStarted {W} host pid =
    (launch : Launch) × (before : W) × (after : W) × (host.start launch before ≡ (some pid, after))

-- adbd runs, is held by the variable, and has published its descriptors.
abbrev pub IsReady : {W : Type 0} → AdbHost W → UsbGadgetAdb → Option EffectError × World W → Type 0
IsReady host d (e, w) =
    (e ≡ none)
    × ((pid : ℕ) × (w.adbd_process ≡ some pid) × IsStarted host pid)
    × (host.file_exists (ep1 host d) w.outside ≡ true)

-- The errors up to the mount.
abbrev pub is_early : EffectError → Bool
is_early no_instance = true
is_early attrs_failed = true
is_early strs_failed = true
is_early mkdir_failed = true
is_early mount_failed = true
is_early _ = false

-- An error, early or late, with that in the variable.
abbrev pub FailsWith : {W : Type 0} → Bool → Option ℕ → Option EffectError × World W → Type 0
FailsWith early held (e, w) =
    (x : EffectError) × (e ≡ some x) × (is_early x ≡ early) × (w.adbd_process ≡ held)

module _ {W : Type 0} (host : AdbHost W) (ticking : IsTicking host) (d : UsbGadgetAdb) where
  -- A result that is one of the two.
  abbrev Launches : Option (Option EffectError × World W) → Type 0
  Launches r =
      (o : Option EffectError × World W) × (r ≡ some o)
      × (IsReady host d o ⊎ FailsWith false none o)

  launch_fails :
      (e : EffectError) (out : W) → is_early e ≡ false → Launches (some (dropped host e out))
  launch_fails e out late = (dropped host e out, refl, inr (e, refl, late, refl))

  if_Launches :
      (b : Bool) (x y : Option (Option EffectError × World W))
      → Launches x
      → Launches y
      → Launches (if b then x else y)
  if_Launches true x y hx hy = hx
  if_Launches false x y hx hy = hy

  killed_Launches :
      (e : EffectError) (w : World W)
      → is_early e ≡ false
      → Launches (some (some e, kill_adbd host w))
  killed_Launches e w late =
      ((some e, kill_adbd host w), refl, inr (e, refl, late, (unfold kill_adbd in refl)))

  ready_or :
      (pid : ℕ) (w : World W) (r : Option (Option EffectError × World W))
      → w.adbd_process ≡ some pid
      → IsStarted host pid
      → Launches r
      → Launches (if host.file_exists (ep1 host d) w.outside then some (none, w) else r)
  ready_or pid w r held run h = elim (Bool-cases (host.file_exists (ep1 host d) w.outside)) [
    | inl e ↦ rw e ((none, w), refl, inl (refl, (pid, held, run), e))
    | inr e ↦ rw e h
  ]

  wait_ready-Launches :
      (rounds ticks start deadline pid : ℕ) (w : World W)
      → w.adbd_process ≡ some pid
      → IsStarted host pid
      → start + 20 * ticks ≤ host.now w.outside
      → deadline ≤ start + 20 * (ticks + rounds)
      → Launches (wait_ready host (suc rounds) ticks start deadline d pid w)
  unfolding wait_ready
  wait_ready-Launches zero ticks start deadline pid w held run now h =
      let late : ltb (host.now w.outside) deadline ≡ false = ground arith in
      rw late (killed_Launches timed_out w refl)
  wait_ready-Launches (suc rounds) ticks start deadline pid w held run now h =
      let out = host.tick start (suc ticks) w.outside in
      let ticked : start + 20 * suc ticks ≤ host.now out = ticking start (suc ticks) w.outside in
      let next = with_outside host w out in
      let later : Option (Option EffectError × World W) =
        wait_ready host (suc rounds) (suc ticks) start deadline d pid next in
      let polled : Launches later =
        wait_ready-Launches rounds (suc ticks) start deadline pid next held run ticked
          (omega arith) in
      let gone : Option (Option EffectError × World W) = some (some exited, kill_adbd host w) in
      let alive =
        if_Launches (host.is_alive pid w.outside) later gone polled
          (killed_Launches exited w refl) in
      if_Launches (ltb (host.now w.outside) deadline)
        (if host.file_exists (ep1 host d) w.outside
          then some (none, w)
          else if host.is_alive pid w.outside
          then later
          else gone)
        (some (some timed_out, kill_adbd host w)) (ready_or pid w _ held run alive)
        (killed_Launches timed_out w refl)

  started-Launches :
      (launch : Launch) (before : W) → Launches (started host d (host.start launch before))
  unfolding started
  started-Launches launch before = of_start (host.start launch before) refl
    where
      of_start : (r : Option ℕ × W) → host.start launch before ≡ r → Launches (started host d r)
      of_start (none, out) e = launch_fails start_failed out refl
      of_start (some pid, out) e =
          let out' = (host.write_file adbd_pid_file (itoa pid ++ (b'\n' ∷ [])) out).1 in
          let start = host.now out' in
          wait_ready-Launches 100 0 start (start + 2000) pid
            (record { adbd_process = some pid; outside = out' }) refl (launch, before, out, e)
            (omega arith) (omega arith)

  launch_as-Launches :
      (path : Bytes) (identity : AdbdIdentity) (out : W)
      → Launches (launch_as host d path identity out)
  unfolding launch_as
  launch_as-Launches path identity out =
      let moded = host.change_mode d.ffs_path out in
      let owned = host.change_owner d.ffs_path identity.uid identity.gid moded.1 in
      let launch : Launch = record {
        path = path;
        dir = identity.home;
        identity = some identity;
        env = merge_envs (host.environ owned.1) (identity_env identity ++ d.envs);
      } in
      let run = started host d (host.start launch owned.1) in
      if_Launches moded.0 (some (dropped host chmod_failed moded.1))
        (if owned.0 then some (dropped host chown_failed owned.1) else run)
        (launch_fails chmod_failed moded.1 refl)
        (if_Launches owned.0 (some (dropped host chown_failed owned.1)) run
          (launch_fails chown_failed owned.1 refl) (started-Launches launch owned.1))

  launch_identity-Launches : (path : Bytes) (out : W) → Launches (launch_identity host d path out)
  unfolding launch_identity
  launch_identity-Launches path out =
      of_identity (resolve_adbd_identity (host.accounts out) d.run_as_user d.run_as_group) refl
    where
      of_identity :
          (r : Result IdentityError AdbdIdentity)
          → resolve_adbd_identity (host.accounts out) d.run_as_user d.run_as_group ≡ r
          → Launches (launch_identity host d path out)
      of_identity (err e) p = rw (launch_identity, p) (launch_fails (bad_identity e) out refl)
      of_identity (ok identity) p = rw (launch_identity, p) (launch_as-Launches path identity out)

  launch_plain-Launches : (path : Bytes) (out : W) → Launches (launch_plain host d path out)
  unfolding launch_plain
  launch_plain-Launches path out = started-Launches _ _

  mounted-Launches : (w : World W) → Launches (mounted host d w)
  unfolding mounted
  mounted-Launches w =
      let w1 = kill_adbd host w in
      elim (Option-cases (host.look_path w1.outside)) [
        | inl e ↦
            rw (mounted, e)
              ((some no_adbd, w1), refl, inr (no_adbd, refl, refl, (unfold kill_adbd in refl)))
        | inr (path, e) ↦
            rw (mounted, e)
              (if_Launches (bytes_eq d.run_as_user [] && bytes_eq d.run_as_group []) _ _
                (launch_plain-Launches path w1.outside) (launch_identity-Launches path w1.outside))
      ]

-- Ready, failed late with nothing held, or failed early with the variable as it was.
abbrev pub Ends :
    {W : Type 0}
    → AdbHost W
    → UsbGadgetAdb
    → World W
    → Option (Option EffectError × World W)
    → Type 0
Ends host d w r =
    (o : _) × (r ≡ some o)
    × (IsReady host d o ⊎ FailsWith false none o ⊎ FailsWith true w.adbd_process o)

module _ {W : Type 0} (host : AdbHost W) (d : UsbGadgetAdb) (w : World W) where
  early_Ends :
      (b : Bool) (e : EffectError) (out : W) (rest : Option (Option EffectError × World W))
      → is_early e ≡ true
      → Ends host d w rest
      → Ends host d w (if b then some (some e, with_outside host w out) else rest)
  early_Ends true e out rest early h =
      ((some e, with_outside host w out), refl, inr (inr (e, refl, early, refl)))
  early_Ends false e out rest early h = h

  -- With a ticker whose ticks are not early, `effect` always returns. Without an error the variable
  -- holds a process that `Start` has started, and the descriptors of adbd are there. An error up to
  -- the mount leaves the variable as it was, and any later error leaves no process in it.
  pub effect-Ends : IsTicking host → Ends host d w (effect host d w)
  unfolding effect
  effect-Ends ticking =
      let attrs = host.set_gadget_attrs w.outside in
      let strs = host.set_strs d.serial_number d.manufacturer d.product attrs.1 in
      let made = host.make_dirs d.ffs_path (host.umount_ffs d.ffs_path strs.1) in
      let mounted_ = host.mount d.ffs_path made.1 in
      let (o, e, ends) = mounted-Launches host ticking d (with_outside host w mounted_.1) in
      let rest : Ends host d w (mounted host d (with_outside host w mounted_.1)) =
        (o, e, wider o ends) in
      early_Ends (bytes_eq d.instance_name []) no_instance w.outside _ refl (
        early_Ends attrs.0 attrs_failed attrs.1 _ refl (
          early_Ends strs.0 strs_failed strs.1 _ refl (
            early_Ends made.0 mkdir_failed made.1 _ refl
              (early_Ends mounted_.0 mount_failed mounted_.1 _ refl rest))))
    where
      wider :
          (o : Option EffectError × World W)
          → IsReady host d o ⊎ FailsWith false none o
          → IsReady host d o ⊎ FailsWith false none o ⊎ FailsWith true w.adbd_process o
      wider o (inl h) = inl h
      wider o (inr h) = inr (inl h)
