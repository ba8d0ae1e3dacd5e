-- ===== src/Drivers/Timer.antt =====
-- drivers/timer.c: the ticks since the boot. `sched_tick`, which the interrupt calls last, is in
-- Kernel/Sched. Both counters are `u64`.
use ore_unix.Common.{
  ℕ, zero, suc, ◌+◌, ◌*◌, ◌/◌, ◌%◌, ◌^◌, ◌<◌, ◌≡◌, refl, List, [], ◌∷◌, ◌==◌, if◌then◌else◌, arith,
}

pub record Clock : Type 0 where
  pub jiffies : ℕ
  pub uptime_s : ℕ

unfoldable pub timer_irq : Clock → Clock
timer_irq c =
    let ticks = (c.jiffies + 1) % 2 ^ 64 in
    record {
      jiffies = ticks;
      uptime_s = if ticks % 100 == 0 then (c.uptime_s + 1) % 2 ^ 64 else c.uptime_s;
    }

-- The ports and bytes that `timer_init` writes.
unfoldable pub timer_init : ℕ → List (ℕ × ℕ)
timer_init hz =
    let divisor = 1193182 / hz in (67, 54) ∷ (64, divisor % 256) ∷ (64, divisor / 256 % 256) ∷ []

unfoldable pub timer_get_ms : Clock → ℕ
timer_get_ms c = c.jiffies * 10 % 2 ^ 64

abbrev pub ticks : ℕ → Clock → Clock
ticks zero c = c
ticks (suc n) c = timer_irq (ticks n c)

irq-counts :
    (c : Clock) (n : ℕ)
    → suc n < 2 ^ 64
    → c.jiffies ≡ n
    → c.uptime_s ≡ n / 100
    → ((timer_irq c).jiffies ≡ suc n) × ((timer_irq c).uptime_s ≡ suc n / 100)
unfolding timer_irq
irq-counts c n h j u = ground arith

-- After any number of ticks below 2^64 from the boot, `jiffies` is their number and `uptime_s` is
-- that number divided by 100.
pub ticks-counts :
    (n : ℕ)
    → n < 2 ^ 64
    → (let c = ticks n (record { jiffies = 0; uptime_s = 0 }) in
        (c.jiffies ≡ n) × (c.uptime_s ≡ n / 100))
ticks-counts zero h = (refl, refl)
ticks-counts (suc n) h =
    let ih = ticks-counts n (omega arith) in
    irq-counts (ticks n (record { jiffies = 0; uptime_s = 0 })) n h ih.0 ih.1
