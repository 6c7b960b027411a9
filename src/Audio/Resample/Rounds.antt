-- ===== src/Audio/Resample/Rounds.antt =====
-- The output loop of the resamplers in crates/impossible-voice-audio/src/lib.rs, over many rounds.
use impossible_voice.Prelude.{
  ℕ, zero, suc, ◌+◌, ◌*◌, ◌≤◌, ◌<◌, ◌≡◌, refl, sym, ap, List, [], ◌∷◌, ◌++◌, arith, length, Result,
  ok, err,
}
use impossible_voice.Prelude.Word.{u64_mod}
use impossible_voice.Audio.Float.{Floats, ZeroFraction}
use impossible_voice.Audio.Admission.{AudioError}
use impossible_voice.Audio.Resample.{sample_at, prepend, render}
use impossible_voice.Audio.Resample.Positions.{Within-lt-count, count_to}
use impossible_voice.Audio.Resample.Streaming.{AllValid, sample_at-eq-ok, sample_at-append}

module _ (fl : Floats) (input : List fl.F32) (last source target : ℕ) where
  open fl use {F32}

  prepend-eq-ok :
      (x : F32) (r : Result AudioError (List F32)) {xs : List F32}
      → prepend fl x r ≡ ok xs
      → (ys : List F32) × (r ≡ ok ys) × (x ∷ ys ≡ xs)
  prepend-eq-ok x (ok ys) e = (ys, refl, cc)
  prepend-eq-ok x (err f) e = cc

  -- A row of rounds that succeeds begins with a round that does.
  first_round :
      (m next stop : ℕ) (xs : List F32)
      → render fl input last source target (suc m) next ≡ (stop, ok xs)
      → (x : F32) × (ys : List F32) × (sample_at fl input last source target next ≡ ok x)
        × (render fl input last source target m (next + 1) ≡ (stop, ok ys))
        × (x ∷ ys ≡ xs)
  unfolding render
  first_round m next stop xs e = go (sample_at fl input last source target next) refl
    where
      go :
          (r : Result AudioError F32)
          → sample_at fl input last source target next ≡ r
          → (x : F32) × (ys : List F32) × (sample_at fl input last source target next ≡ ok x)
            × (render fl input last source target m (next + 1) ≡ (stop, ok ys))
            × (x ∷ ys ≡ xs)
      go (err f) h = cc (sym (rw (h, render) at e))
      go (ok x) h =
          let e' = rw (h, render) at e in
          let (ys, ey, exs) = prepend-eq-ok x _ (ap (λ t. t.1) e') in
          (x, ys, h, (λ i. (ap (λ t. t.0) e' i, ey i)), exs)

  -- Rounds one after the other put out one list behind the other.
  pub render-add :
      (m n next : ℕ) (xs ys : List F32) {stop : ℕ}
      → render fl input last source target m next ≡ (next + m, ok xs)
      → render fl input last source target n (next + m) ≡ (stop, ok ys)
      → render fl input last source target (m + n) next ≡ (stop, ok (xs ++ ys))
  unfolding render
  render-add zero n next xs ys e f =
      let none_out : [] ≡ xs = cc (ap (λ t. t.1) e) in
      let n_eq : zero + n ≡ n = omega arith in
      let next_eq : next + zero ≡ next = omega arith in rw (n_eq, ← none_out) (rw next_eq at f)
  render-add (suc m) n next xs ys e f =
      let (x, xs', hx, hr, hxs) = first_round m next _ xs e in
      let sum_eq : suc m + n ≡ suc (m + n) = omega arith in
      let next_eq : next + suc m ≡ next + 1 + m = omega arith in
      let rest = render-add m n (next + 1) xs' ys (rw next_eq at hr) (rw next_eq at f) in
      rw (sum_eq, ← hxs) (rw (hx, render) (rw rest))

module _ (fl : Floats) (zf : ZeroFraction fl) (source target : ℕ) (source_pos : 0 < source)
    (target_pos : 0 < target) (target_small : target < 65_536)
    (source_small : source < 65_536) where
  open fl use {F32}

  module _ (input : List F32) (last : ℕ) (len : length input ≡ suc last)
      (small : length input * 65_536 < u64_mod) where
    -- Rounds within the input all succeed.
    pub render_total :
        (rounds next : ℕ)
        → next + rounds ≤ count_to source target last
        → (xs : List F32) × (render fl input last source target rounds next
            ≡ (next + rounds, ok xs))
    unfolding render
    render_total zero next h = let e : next + zero ≡ next = omega arith in ([], rw e)
    render_total (suc rounds) next h =
        let (x, ex) =
          sample_at-eq-ok fl zf source target source_pos target_pos target_small input last next len
            small source_small (Within-lt-count last source target next source_pos (omega arith)) in
        let (xs, exs) = render_total rounds (next + 1) (omega arith) in
        let e : next + 1 + rounds ≡ next + suc rounds = omega arith in
        (x ∷ xs, rw (ex, render) (rw (exs, e)))

  -- Rounds that lie within an input are the same when more input follows it.
  pub render-append :
      (input more : List F32) (last last' : ℕ)
      → length input ≡ suc last
      → length (input ++ more) ≡ suc last'
      → length (input ++ more) * 65_536 < u64_mod
      → AllValid fl (input ++ more)
      → (rounds next : ℕ) → next + rounds ≤ count_to source target last
      → render fl (input ++ more) last' source target rounds next
        ≡ render fl input last source target rounds next
  unfolding render
  render-append input more last last' len len' small' valid zero next h = refl
  render-append input more last last' len len' small' valid (suc rounds) next h =
      let same =
        sample_at-append fl zf source target source_pos target_pos target_small input more last
          last' next len len' small' source_small
          (Within-lt-count last source target next source_pos (omega arith)) valid in
      let ih = render-append input more last last' len len' small' valid rounds (next + 1) in
      go (sample_at fl input last source target next) refl same (ih (omega arith))
    where
      go :
          (r : Result AudioError F32)
          → sample_at fl input last source target next ≡ r
          → sample_at fl (input ++ more) last' source target next
            ≡ sample_at fl input last source target next
          → render fl (input ++ more) last' source target rounds (next + 1)
            ≡ render fl input last source target rounds (next + 1)
          → render fl (input ++ more) last' source target (suc rounds) next
            ≡ render fl input last source target (suc rounds) next
      go (ok x) e same ih = rw (same, e, render) (rw ih)
      go (err f) e same ih = rw (same, e, render)
