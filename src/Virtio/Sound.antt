-- ===== src/Virtio/Sound.antt =====
-- What every write of a register keeps: a selected queue that exists, numbers of descriptors that are
-- powers of two, and an interrupt line that is high just while an interrupt is pending.
use esp32_tinyemu.Prelude.{
  ℕ, ◌^◌, ◌<◌, ◌≡◌, ◌≢◌, inl, inr, Bool, true, false, ◌&&◌, ◌==◌, if◌then◌else◌, ltb, leb, arith,
  refl, ap, ◌∙◌, bit, bit_zero, bit-and, bit-or, digit, zero_bits, and_lt, size_sub, word_and,
  word_or, word_not, Bool-cases,
}
use esp32_tinyemu.Cpu.{clear}
use esp32_tinyemu.Virtio.{
  max_queue, QueueState, VirtioDevice, virtio_reset, set_irq, put_queue, new_queue,
}
use esp32_tinyemu.Virtio.Powers.{power_of_two}
use esp32_tinyemu.Virtio.Registers.{
  in_config, virtio_config_write, queue_register, device_register, virtio_config_change_notify,
  acknowledge,
}

pub record GoodQueue (qs : QueueState) : Type 0 where
  pub power : (k : ℕ) × (qs.num ≡ 2 ^ k)
  pub flag : qs.ready < 2

pub record IsSound (s : VirtioDevice) : Type 0 where
  pub exists : s.queue_sel < max_queue
  pub queues : (i : ℕ) → i < max_queue → GoodQueue (s.queue i)
  pub line : s.irq_level ≡ (if s.int_status == 0 then 0 else 1)

IsSound-if : (c : Bool) {x y : VirtioDevice} → IsSound x → IsSound y → IsSound (if c then x else y)
IsSound-if true p q = p
IsSound-if false p q = q

clear_zero : (val : ℕ) → clear 0 val ≡ 0
unfolding clear
clear_zero val =
    zero_bits 32 (word_and 0 (word_not val)) (and_lt 0 (word_not val))
      (λ k lt. bit-and 0 (word_not val) k lt ∙ ground (arith, bit_zero k))

or_two : (x : ℕ) → word_or x 2 ≢ 0
unfolding bit
or_two x e =
    let h = bit-or x 2 1 (omega arith) in
    ground (arith, h, e, bit_zero 1, digit x 1, ap (λ (y : ℕ). bit y 1) e)

new_queue-GoodQueue : (qs : QueueState) → GoodQueue (new_queue qs)
new_queue-GoodQueue qs = record { power = (4, refl); flag = omega arith }

queue_register-GoodQueue :
    (qs : QueueState) (offset val : ℕ)
    → val < 2 ^ 32
    → GoodQueue qs
    → GoodQueue (queue_register qs offset val)
unfolding queue_register
queue_register-GoodQueue qs offset val lt g = record {
  power = elim (Bool-cases (offset == 0x038)) [
    | inl e ↦ rw e (number ((word_and val (size_sub val 1) == 0) && ltb 0 val) refl)
    | inr e ↦ (g.power.0, ground (arith, e) ∙ g.power.1)
  ];
  flag = ground (arith, g.flag);
}
  where
    number :
        (c : Bool)
        → (word_and val (size_sub val 1) == 0) && ltb 0 val ≡ c
        → (k : ℕ) × ((if c then record qs { num = val } else qs).num ≡ 2 ^ k)
    number true e = power_of_two val lt (ground (arith, e)) (ground (arith, e))
    number false e = g.power

pub put_queue-IsSound :
    (s : VirtioDevice) (i : ℕ) (qs : QueueState)
    → i < max_queue
    → GoodQueue qs
    → IsSound s
    → IsSound (put_queue s i qs)
put_queue-IsSound s i qs lt g h = record {
  exists = h.exists;
  queues = λ j lj. elim (Bool-cases (j == i)) [ inl e ↦ rw e g | inr e ↦ rw e (h.queues j lj) ];
  line = h.line;
}

virtio_reset-IsSound : (s : VirtioDevice) → IsSound (virtio_reset (set_irq s 0))
unfolding virtio_reset
virtio_reset-IsSound s = record {
  exists = omega arith;
  queues = λ i lt.
      (let e : ltb i max_queue ≡ true = ground (arith, lt) in
        rw e (new_queue-GoodQueue (s.queue i)));
  line = refl;
}

line_high : (x : ℕ) → x ≢ 0 → ◌≡◌ {A = ℕ} 1 (if x == 0 then 0 else 1)
line_high x ne = ground (arith, ne)

-- A core part with the same queues and selection.
relined :
    (s s' : VirtioDevice)
    → s'.queue_sel ≡ s.queue_sel
    → s'.queue ≡ s.queue
    → s'.irq_level ≡ (if s'.int_status == 0 then 0 else 1)
    → IsSound s
    → IsSound s'
relined s s' sel queues line h = record {
  exists = rw sel h.exists;
  queues = λ i lt. rw queues (h.queues i lt);
  line = line;
}

acknowledge-IsSound :
    (s : VirtioDevice) (val : ℕ) → IsSound s → IsSound (acknowledge s (clear s.int_status val))
acknowledge-IsSound s val h = elim (Bool-cases (clear s.int_status val == 0)) [
  | inl e ↦ rw e (relined s _ refl refl (rw e refl) h)
  | inr e ↦ rw e (relined s _ refl refl (h.line ∙ ground (arith, e, clear_zero val)) h)
]

pub device_register-IsSound :
    (s : VirtioDevice) (offset val : ℕ)
    → val < 2 ^ 32
    → IsSound s
    → IsSound (device_register s offset val)
unfolding device_register
device_register-IsSound s offset val lv h =
    IsSound-if (offset == 0x014) (relined s _ refl refl h.line h) (
      IsSound-if (offset == 0x030) (selects (ltb val max_queue) refl) (
        IsSound-if (offset == 0x070)
          (IsSound-if (val == 0) (virtio_reset-IsSound (record s { status = 0 }))
            (relined s _ refl refl h.line h))
          (IsSound-if (offset == 0x064) (acknowledge-IsSound s val h) (
            put_queue-IsSound s s.queue_sel _ h.exists
              (queue_register-GoodQueue _ offset val lv (h.queues s.queue_sel h.exists)) h))))
  where
    selects :
        (c : Bool) → ltb val max_queue ≡ c → IsSound (if c then record s { queue_sel = val } else s)
    selects true e = record { exists = ground (arith, e); queues = h.queues; line = h.line }
    selects false e = h

-- A change of the configuration raises the line.
pub config_change-IsSound : (s : VirtioDevice) → IsSound s → IsSound (virtio_config_change_notify s)
unfolding virtio_config_change_notify
config_change-IsSound s h =
    relined s _ refl refl (line_high (word_or s.int_status 2) (or_two s.int_status)) h

pub config_write-IsSound :
    (s : VirtioDevice) (offset val size_log2 : ℕ)
    → IsSound s
    → IsSound (virtio_config_write s offset val size_log2).1
unfolding virtio_config_write
config_write-IsSound s offset val size_log2 h =
    elim (Bool-cases (leb size_log2 2 && in_config s offset (2 ^ size_log2))) [
      | inl e ↦ rw e (relined s _ refl refl h.line h)
      | inr e ↦ rw e h
    ]
