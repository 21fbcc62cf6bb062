-- ===== src/RecordingScore/Collared.antt =====
-- The cells behind the collar hold exactly the instants of the UEM that are not near a boundary.
use Prim.Native.String.{String}
use sddiar.Base.{
  ℕ, ◌≡◌, sym, ap, subst, ◌∙◌, Bool, not, ◌&&◌, ◌||◌, List, [], ◌∷◌, any, All, Result, ok, ok-inj,
  evaluation, ◌>>=◌, bind_ok, raise_if_then, map_each, ltb, length, ◌==◌, arith,
}
use sddiar.Base.Sort.{sort}
use sddiar.Base.Each.{map_each-cons, map_each-All}
use sddiar.Intervals.{Interval, covers, AreForward}
use sddiar.Scoring.{merge_intervals, apply_collar}
use sddiar.Scoring.Collar.{near}
use sddiar.Scoring.Forward.{merge_intervals-AreForward, apply_collar-covers-AreForward}
use sddiar.DiarizationError.{str_le}
use sddiar.TimelineCells.{
  RttmRecord, UemInterval, uem_by_channel, channels_of, intervals_on, timeline_cells,
}
use sddiar.TimelineCells.Tiling.{spans_of, covers-timeline_cells}
use sddiar.RecordingScore.{Channels, apply_collar_all}

-- Some channel has the instant in an interval.
abbrev pub scores : ℕ → Channels → Bool
scores t uem = any (λ (c : String × List Interval). covers t c.1) uem

abbrev pub AllForward : Channels → Type 0
AllForward uem = All (λ (c : String × List Interval). AreForward c.1) uem

pub uem_by_channel-AllForward :
    (uem : List UemInterval) (out : Channels) → uem_by_channel uem ≡ ok out → AllForward out
unfolding uem_by_channel
uem_by_channel-AllForward uem out h =
    let f : String → Result (String × List Interval) = λ channel.
      merge_intervals (intervals_on channel uem) >>= λ intervals. ok (channel, intervals) in
    map_each-All f (λ c. AreForward c.1) (sort str_le (channels_of uem)) out
      (λ channel y found.
        let (intervals, merged, same) =
          bind_ok (merge_intervals (intervals_on channel uem))
            (λ intervals. ok (channel, intervals)) y found in
        subst (λ c. AreForward c.1) (ok-inj same)
          (merge_intervals-AreForward (intervals_on channel uem) intervals merged))
      (raise_if_then (length uem == 0) evaluation (map_each f (sort str_le (channels_of uem))) out
        h)

-- Whether the collar takes the instant away
abbrev pub is_near : ℕ → List ℕ → ℕ → Bool
is_near t boundaries collar = ltb 0 collar && near t collar boundaries

join :
    (a b c d off : Bool)
    → a ≡ (c && not off)
    → b ≡ (d && not off)
    → (a || b) ≡ ((c || d) && not off)
join a b c d off h k = ground (arith, h, k)

module _ (boundaries : List ℕ) (collar : ℕ) where
  abbrev collared : String × List Interval → Result (String × List Interval)
  collared c = apply_collar c.1 boundaries collar >>= λ intervals. ok (c.0, intervals)

  pub apply_collar_all-AllForward :
      (uem out : Channels)
      → apply_collar_all uem boundaries collar ≡ ok out
      → AllForward uem
      → AllForward out
        × ((t : ℕ) → scores t out ≡ (scores t uem && not (is_near t boundaries collar)))
  unfolding apply_collar_all map_each
  apply_collar_all-AllForward [] out h forward =
      (subst AllForward (ok-inj h) tt, λ t. ap (scores t) (sym (ok-inj h)))
  apply_collar_all-AllForward (c ∷ uem) out h (first, forward) =
      let (y, ys, cut, rest, same) = map_each-cons collared c uem out h in
      let (intervals, done, pair) =
        bind_ok (apply_collar c.1 boundaries collar) (λ intervals. ok (c.0, intervals)) y cut in
      let (kept, covered) =
        apply_collar-covers-AreForward collar c.1 intervals boundaries done first in
      let (others, scored) = apply_collar_all-AllForward uem ys rest forward in
      let own = ok-inj pair in
      (
        subst AllForward same
            (subst (λ (p : String × List Interval). AreForward p.1) own kept, others),
        λ t.
            ap (scores t) (sym same)
            ∙ join _ _ _ _ _
                (ap (λ (p : String × List Interval). covers t p.1) (sym own) ∙ covered t)
                (scored t),
      )

-- The cells on a UEM, behind the collar of the boundaries
pub covers-collared_cells :
    (upper : String → String) (reference hypothesis : List RttmRecord) (uem : List UemInterval)
    (channels out : Channels) (boundaries : List ℕ) (collar t : ℕ)
    → uem_by_channel uem ≡ ok channels
    → apply_collar_all channels boundaries collar ≡ ok out
    → covers t (spans_of (timeline_cells upper reference hypothesis out))
      ≡ (scores t channels && not (is_near t boundaries collar))
covers-collared_cells upper reference hypothesis uem channels out boundaries collar t h k =
    let (forward, scored) =
      apply_collar_all-AllForward boundaries collar channels out k
        (uem_by_channel-AllForward uem channels h) in
    covers-timeline_cells upper t reference hypothesis out forward ∙ scored t
