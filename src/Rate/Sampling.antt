-- ===== src/Rate/Sampling.antt =====
-- Ticks of the sampling goroutine under a steady flow, and how it is started and stopped.
use nat_punch.Base.{
  sym, subst, ◌-◌, ℕ, zero, suc, ◌+◌, ◌*◌, ◌/◌, ◌^◌, ◌≤◌, ◌≡◌, refl, ap, ◌∙◌, arith, Bool, true,
  false, List, [], ◌∷◌, Option, none, some,
}
use nat_punch.Base.Int.{ℤ}
use native.Mathlib.Nat.{pow-suc}
use nat_punch.Rate.{
  Rate, new_rate, start_from, start, ended, stop_from, stop, Sampler, tick, set_now_rate,
}

-- So many ticks, between each of which `step` bytes are counted.
unfoldable pub ticks : (n step : ℕ) → Sampler × Rate → Sampler × Rate
ticks zero step t = t
ticks (suc n) step (s, r) = ticks n step (tick (s.last_total + step) (s, r))

-- A tick with a source, after another.
abbrev sampled : Rate → ℕ → ℕ → Rate
sampled r total last_total = set_now_rate ((r.now_rate + (total - last_total) / 2) / 2) r

tick_again :
    (total : ℕ) (s : Sampler) (r : Rate)
    → s.read ≡ true
    → s.have_last ≡ true
    → tick total (s, r)
      ≡ (record s { last_total = total; have_last = true }, sampled r total s.last_total)
unfolding tick
tick_again total s r source h = rw (source, h) refl

-- A flow of `speed` bytes a second, with a tick every two seconds: the rate shown never exceeds the
-- speed, if it did not, and `n` ticks bring it within a byte of it from at most 2^n below, if there is
-- a source and a tick has been before.
pub ticks-steady :
    (n speed : ℕ) (s : Sampler) (r : Rate)
    → s.read ≡ true
    → s.have_last ≡ true
    → r.now_rate ≤ speed
    → speed ≤ r.now_rate + 2 ^ n
    → ((ticks n (2 * speed) (s, r)).1.now_rate ≤ speed)
      × (speed ≤ (ticks n (2 * speed) (s, r)).1.now_rate + 1)
unfolding ticks set_now_rate
ticks-steady zero speed s r source h le near = (le, omega (arith, near))
ticks-steady (suc n) speed s r source h le near =
    let total = s.last_total + 2 * speed in
    let now : (sampled r total s.last_total).now_rate ≡ (r.now_rate + speed) / 2 = omega arith in
    subst
      (λ t.
        ((ticks n (2 * speed) t).1.now_rate ≤ speed)
        × (speed ≤ (ticks n (2 * speed) t).1.now_rate + 1))
      (sym (tick_again total s r source h))
      (ticks-steady n speed (record s { last_total = total; have_last = true })
        (sampled r total s.last_total) source refl (omega (arith, now, le))
        (omega (arith, now, near, pow-suc 2 n)))

-- `true` starts the sampling, `false` stops it.
unfoldable pub switches : List Bool → Rate → Rate
switches [] r = r
switches (true ∷ bs) r = switches bs (start r)
switches (false ∷ bs) r = switches bs (stop r)

abbrev pub reached : Option ℕ → List ℕ
reached none = []
reached (some n) = n ∷ []

-- The goroutine that runs is the one that can be stopped.
abbrev pub Single : Rate → Type 0
Single r = r.live ≡ reached r.stop_chan

start-Single : (r : Rate) → Single r → Single (start r)
unfolding start
start-Single r h = go r.stop_chan refl
  where
    go : (o : Option ℕ) → r.stop_chan ≡ o → Single (start_from o r)
    go none e = ap (λ t. r.started ∷ t) (h ∙ ap reached e)
    go (some n) e = h

stop-Single : (r : Rate) → Single r → Single (stop r)
unfolding stop
stop-Single r h = go r.stop_chan refl
  where
    alone : (n : ℕ) → ended n (n ∷ []) ≡ []
    alone n = ground arith

    go : (o : Option ℕ) → r.stop_chan ≡ o → Single (stop_from o r)
    go none e = h
    go (some n) e = ap (ended n) (h ∙ ap reached e) ∙ alone n

switched-Single : (bs : List Bool) (r : Rate) → Single r → Single (switches bs r)
unfolding switches
switched-Single [] r h = h
switched-Single (true ∷ bs) r h = switched-Single bs (start r) (start-Single r h)
switched-Single (false ∷ bs) r h = switched-Single bs (stop r) (stop-Single r h)

-- However a new limiter is started and stopped, the sampling goroutine that runs is the one that the
-- next `Stop` reaches, or none runs.
pub switches-Single : (bs : List Bool) (add_size : ℤ) → Single (switches bs (new_rate add_size))
unfolding new_rate
switches-Single bs add_size = switched-Single bs (new_rate add_size) refl
