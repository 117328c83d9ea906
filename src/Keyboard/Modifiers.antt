-- ===== src/Keyboard/Modifiers.antt =====
-- The modifier keys as a state machine.
use linux_like_os_project.Prelude.{◌-◌, ◌≡◌, ◌≤◌, refl, arith, ◌==◌, if◌then◌else◌, ap, ◌∙◌}
use linux_like_os_project.Keyboard.{
  Keyboard, caps_lock_handler, caps_lock_on, caps_lock_off, caps_lock_pressed, caps_lock_released,
}

-- The flags of the CAPS LOCK key are 0 or 1.
pub record IsFlags (k : Keyboard) : Type 0 where
  pub activated : k.caps_locked_activated ≤ 1
  pub held : k.caps_lock_held ≤ 1

press-eq :
    (k : Keyboard)
    → IsFlags k
    → caps_lock_handler caps_lock_pressed k ≡ record k {
      caps_locked_activated =
          if k.caps_lock_held == 0 then 1 - k.caps_locked_activated else k.caps_locked_activated;
      caps_lock_held = 1;
    }
unfolding caps_lock_handler caps_lock_on caps_lock_off
press-eq k v = ground arith

release-eq :
    (k : Keyboard) → caps_lock_handler caps_lock_released k ≡ record k { caps_lock_held = 0 }
unfolding caps_lock_handler caps_lock_on caps_lock_off
release-eq k = refl

-- With flags of 0 or 1, a press of CAPS LOCK while it is up turns the lock over, and a press while it is
-- down, as the keyboard repeats it, leaves the lock; a release leaves the lock; after a press the key
-- counts as down, after a release as up, and nothing else changes.
pub caps_lock_handler_lem :
    (k : Keyboard)
    → IsFlags k
    → (caps_lock_handler caps_lock_pressed k ≡ record k {
      caps_locked_activated =
          if k.caps_lock_held == 0 then 1 - k.caps_locked_activated else k.caps_locked_activated;
      caps_lock_held = 1;
    })
      × (caps_lock_handler caps_lock_released k ≡ record k { caps_lock_held = 0 })
caps_lock_handler_lem k v = (press-eq k v, release-eq k)

-- CAPS LOCK pressed and released, as one function.
abbrev pub tap : Keyboard → Keyboard
tap k = caps_lock_handler caps_lock_released (caps_lock_handler caps_lock_pressed k)

tap-eq :
    (k : Keyboard)
    → IsFlags k
    → k.caps_lock_held ≡ 0
    → tap k ≡ record k { caps_locked_activated = 1 - k.caps_locked_activated }
tap-eq k v h =
    release-eq (caps_lock_handler caps_lock_pressed k)
    ∙ ap {A = Keyboard} (λ j. record j { caps_lock_held = 0 }) (press-eq k v)
    ∙ ground arith

-- With flags of 0 or 1 and the key up, CAPS LOCK pressed and released twice gives the first state back.
pub tap_twice : (k : Keyboard) → IsFlags k → k.caps_lock_held ≡ 0 → tap (tap k) ≡ k
tap_twice k v h =
    ap tap (tap-eq k v h)
    ∙ tap-eq (record k { caps_locked_activated = 1 - k.caps_locked_activated })
        (record { activated = omega arith; held = v.held }) h
    ∙ ground arith
