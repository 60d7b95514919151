-- ===== src/Examples/Queue.antt =====
-- The report queue at two reports.
use hope.Base.{
  ℕ, ◌≡◌, refl, subst, true, some, [], ◌∷◌, float, is_finite, f64_lt, f64_sub, ◌-ℤ◌, f64_le,
  f64_add, ◌+ℤ◌, arith, All, drop, length, some_eq,
}
use hope.Protocol.Types.{AgentReport}
use hope.Agent.Queue.{Spool, fresh, trim, push, latest, decode, encode}
use hope.Agent.Queue.Trim.{trim_lem, kept, exact, IsLeast, IsExact, Fits, fresh_at}
use hope.Agent.Queue.Store.{push_newest, decode_lem, IsOwn}
use hope.Agent.Queue.Saved.{decode-encode}
use hope.Examples.Data.{beat, small_item, two_beats, write_items}

trim_lem_example :
    (k : ℕ) × (trim small_item (float 200) two_beats
      ≡ some (exact (drop k (kept (fresh_at small_item (float 200)) two_beats.reports))))
    × IsLeast small_item (kept (fresh_at small_item (float 200)) two_beats.reports) k
trim_lem_example = trim_lem small_item (float 200) two_beats refl

push_newest_example :
    (t : Spool AgentReport) × (push small_item (beat 3) (float 200) two_beats ≡ some (some t))
    × IsExact t
    × Fits small_item t.reports
    × (latest t ≡ some (beat 3))
unfolding fresh is_finite f64_lt f64_sub ◌-ℤ◌ f64_le f64_add ◌+ℤ◌
push_newest_example =
    push_newest small_item (beat 3) 3 (float 200) two_beats refl refl refl (omega arith)
      (omega arith)

decode_lem_example :
    (t : Spool AgentReport) × (decode small_item (write_items b'[' (beat 1 ∷ [])) "a" (float 200)
      ≡ some t)
    × IsExact t
    × Fits small_item t.reports
    × All (IsOwn small_item "a") t.reports
    × All (λ q. fresh (float 200) (small_item.stamp q.report) ≡ true) t.reports
decode_lem_example = decode_lem small_item (write_items b'[' (beat 1 ∷ [])) "a" (float 200)

decode-encode_example :
    decode small_item (write_items b'[' (beat 1 ∷ beat 2 ∷ [])) "a" (float 200) ≡ some two_beats
unfolding encode fresh is_finite f64_lt f64_sub ◌-ℤ◌ f64_le f64_add ◌+ℤ◌
decode-encode_example =
    decode-encode small_item (write_items b'[' (beat 1 ∷ beat 2 ∷ [])) "a" (float 200) two_beats
      (λ b e. subst (λ x. small_item.parse_array x ≡ some (beat 1 ∷ beat 2 ∷ [])) (some_eq e) refl)
      (λ b e. subst (λ x. length x ≡ 9) (some_eq e) refl) refl refl (omega arith, omega arith)
      ((refl, refl), ((refl, refl), tt)) (refl, (refl, tt))
