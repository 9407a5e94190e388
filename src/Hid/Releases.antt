-- ===== src/Hid/Releases.antt =====
-- dev_hid_composite/main.c: what the host holds pressed, from the reports alone, and the static
-- flags that stand for it.
use pico_cpp.Common.{ℕ, ◌≡◌, ◌≢◌, refl, arith, List, [], ◌∷◌, Option, none, some}
use pico_cpp.Common.{Bool, true, false, nonzero, get_or, Bool-cases}
use pico_cpp.Common.{inl, inr}
use pico_cpp.Hid.Device.{HidCodes, Call, keyboard_report, consumer_report}
use pico_cpp.Hid.Device.{gamepad_report, Device}
use pico_cpp.Hid.Device.{send_keyboard, send_consumer, send_gamepad}
use pico_cpp.Hid.Device.{call}
use pico_cpp.Hid.Device.{key_down, key_up, volume_down, volume_released, pad_down, pad_up}

-- What TinyUSB documents of its constants: neither a key nor a button is 0.
pub record Documented (codes : HidCodes) : Type 0 where
  pub key_a : codes.hid_key_a ≢ 0
  pub volume : codes.consumer_volume_decrement ≢ 0
  pub button_a : codes.gamepad_button_a ≢ 0

-- Whether a call tells the host that a profile's key is down, up, or neither.
abbrev pub keyboard_key : Call → Option Bool
keyboard_key (keyboard_report id modifier none) = some false
keyboard_key (keyboard_report id modifier (some keys)) = some (nonzero (get_or keys 0 0))
keyboard_key _ = none

abbrev pub consumer_key : Call → Option Bool
consumer_key (consumer_report id key) = some (nonzero key)
consumer_key _ = none

abbrev pub gamepad_key : Call → Option Bool
gamepad_key (gamepad_report id report) = some (nonzero report.buttons)
gamepad_key _ = none

-- What the last report of a profile says.
abbrev pub held : (Call → Option Bool) → List Call → Bool
held key [] = false
held key (c ∷ calls) = elim (key c) [ none ↦ held key calls | some down ↦ down ]

-- No report says again that a key is up.
abbrev pub Terse : (Call → Option Bool) → List Call → Type 0
Terse key [] = Unit
Terse key (c ∷ calls) = (key c ≡ some false → held key calls ≡ true) × Terse key calls

abbrev pub Mirrors : (Call → Option Bool) → Bool → List Call → Type 0
Mirrors key flag calls = (flag ≡ held key calls) × Terse key calls

last_silent :
    (key : Call → Option Bool) (c : Call) (calls : List Call)
    → key c ≡ none
    → held key (c ∷ calls) ≡ held key calls
last_silent key c calls e = cc e

last_says :
    (key : Call → Option Bool) (c : Call) (calls : List Call) (down : Bool)
    → key c ≡ some down
    → held key (c ∷ calls) ≡ down
last_says key c calls down e = cc e

other :
    (key : Call → Option Bool) (c : Call) (flag : Bool) (calls : List Call)
    → key c ≡ none
    → Mirrors key flag calls
    → Mirrors key flag (c ∷ calls)
other key c flag calls e m =
    (cc (m.0, last_silent key c calls e), (λ bad. absurd (cc (bad, e)), m.1))

press :
    (key : Call → Option Bool) (c : Call) (flag : Bool) (calls : List Call)
    → key c ≡ some true
    → Mirrors key flag calls
    → Mirrors key true (c ∷ calls)
press key c flag calls e m = (cc (last_says key c calls true e), (λ bad. absurd (cc (bad, e)), m.1))

release :
    (key : Call → Option Bool) (c : Call) (flag : Bool) (calls : List Call)
    → key c ≡ some false
    → flag ≡ true
    → Mirrors key flag calls
    → Mirrors key false (c ∷ calls)
release key c flag calls e down m =
    (cc (last_says key c calls false e), (λ same. cc (m.0, down), m.1))

idle :
    (key : Call → Option Bool) (flag : Bool) (calls : List Call)
    → flag ≡ false
    → Mirrors key flag calls
    → Mirrors key false calls
idle key flag calls up m = (cc (m.0, up), m.1)

pub record Sound (d : Device) : Type 0 where
  pub keyboard : Mirrors keyboard_key d.has_keyboard_key d.sent
  pub consumer : Mirrors consumer_key d.has_consumer_key d.sent
  pub gamepad : Mirrors gamepad_key d.has_gamepad_key d.sent

is_down : (n : ℕ) → n ≢ 0 → some (nonzero n) ≡ some true
is_down n h = ground arith

-- A call that is about no profile.
pub call-Sound :
    (d : Device) (c : Call)
    → keyboard_key c ≡ none
    → consumer_key c ≡ none
    → gamepad_key c ≡ none
    → Sound d
    → Sound (call d c)
call-Sound d c k v g s = record {
  keyboard = other keyboard_key c d.has_keyboard_key d.sent k s.keyboard;
  consumer = other consumer_key c d.has_consumer_key d.sent v s.consumer;
  gamepad = other gamepad_key c d.has_gamepad_key d.sent g s.gamepad;
}

module _ (codes : HidCodes) (known : Documented codes) where
  pub send_keyboard-Sound : (d : Device) (btn : ℕ) → Sound d → Sound (send_keyboard codes d btn)
  unfolding send_keyboard
  send_keyboard-Sound d btn s = elim (Bool-cases (nonzero btn)) [
    | inl e ↦ rw e (record {
      keyboard =
          press keyboard_key (key_down codes) d.has_keyboard_key d.sent (is_down _ known.key_a)
            s.keyboard;
      consumer = other consumer_key (key_down codes) d.has_consumer_key d.sent refl s.consumer;
      gamepad = other gamepad_key (key_down codes) d.has_gamepad_key d.sent refl s.gamepad;
    })
    | inr e ↦ elim (Bool-cases d.has_keyboard_key) [
      | inl down ↦
          rw (e, down)
            (record {
              keyboard = release keyboard_key key_up d.has_keyboard_key d.sent refl down s.keyboard;
              consumer = other consumer_key key_up d.has_consumer_key d.sent refl s.consumer;
              gamepad = other gamepad_key key_up d.has_gamepad_key d.sent refl s.gamepad;
            })
      | inr up ↦
          rw (e, up)
            (record {
              keyboard = idle keyboard_key d.has_keyboard_key d.sent up s.keyboard;
              consumer = s.consumer;
              gamepad = s.gamepad;
            })
    ]
  ]

  pub send_consumer-Sound : (d : Device) (btn : ℕ) → Sound d → Sound (send_consumer codes d btn)
  unfolding send_consumer
  send_consumer-Sound d btn s = elim (Bool-cases (nonzero btn)) [
    | inl e ↦ rw e (record {
      keyboard = other keyboard_key (volume_down codes) d.has_keyboard_key d.sent refl s.keyboard;
      consumer =
          press consumer_key (volume_down codes) d.has_consumer_key d.sent (is_down _ known.volume)
            s.consumer;
      gamepad = other gamepad_key (volume_down codes) d.has_gamepad_key d.sent refl s.gamepad;
    })
    | inr e ↦ elim (Bool-cases d.has_consumer_key) [
      | inl down ↦
          rw (e, down)
            (record {
              keyboard =
                  other keyboard_key volume_released d.has_keyboard_key d.sent refl s.keyboard;
              consumer =
                  release consumer_key volume_released d.has_consumer_key d.sent refl down
                    s.consumer;
              gamepad = other gamepad_key volume_released d.has_gamepad_key d.sent refl s.gamepad;
            })
      | inr up ↦
          rw (e, up)
            (record {
              keyboard = s.keyboard;
              consumer = idle consumer_key d.has_consumer_key d.sent up s.consumer;
              gamepad = s.gamepad;
            })
    ]
  ]

  pub send_gamepad-Sound : (d : Device) (btn : ℕ) → Sound d → Sound (send_gamepad codes d btn)
  unfolding send_gamepad
  send_gamepad-Sound d btn s = elim (Bool-cases (nonzero btn)) [
    | inl e ↦ rw e (record {
      keyboard = other keyboard_key (pad_down codes) d.has_keyboard_key d.sent refl s.keyboard;
      consumer = other consumer_key (pad_down codes) d.has_consumer_key d.sent refl s.consumer;
      gamepad =
          press gamepad_key (pad_down codes) d.has_gamepad_key d.sent (is_down _ known.button_a)
            s.gamepad;
    })
    | inr e ↦ elim (Bool-cases d.has_gamepad_key) [
      | inl down ↦
          rw (e, down)
            (record {
              keyboard =
                  other keyboard_key (pad_up codes) d.has_keyboard_key d.sent refl s.keyboard;
              consumer =
                  other consumer_key (pad_up codes) d.has_consumer_key d.sent refl s.consumer;
              gamepad =
                  release gamepad_key (pad_up codes) d.has_gamepad_key d.sent refl down s.gamepad;
            })
      | inr up ↦
          rw (e, up)
            (record {
              keyboard = s.keyboard;
              consumer = s.consumer;
              gamepad = idle gamepad_key d.has_gamepad_key d.sent up s.gamepad;
            })
    ]
  ]
