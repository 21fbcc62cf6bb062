-- ===== src/Spans/Labels.antt =====
-- What a list of spans says of an instant, and which spans the constructor accepts.
use Prim.Native.String.{String}
use sddiar.Base.{
  ℕ, ◌≤◌, ◌<◌, ◌≡◌, refl, sym, ap, ◌∙◌, ◌⊎◌, Bool, true, ◌&&◌, List, [], ◌∷◌, ok, any, arith,
  if◌then◌else◌, ◌==◌,
}
use sddiar.Base.Int.{pos}
use sddiar.Contracts.{max_time_us}
use sddiar.Contracts.Range.{range_iff}
use sddiar.Intervals.{within}
use sddiar.Spans.{
  Speaker, DiarizationSpan, diarization_span, unknown, speaker_00, speaker_01, overlap, other,
  non_speech, unsupported, speaker_code, same_speaker,
}

abbrev pub holds_at : ℕ → DiarizationSpan → Bool
holds_at t s = within t (s.start_us, s.end_us)

-- Whether some span with a wanted label holds the instant.
abbrev pub says : (Speaker → Bool) → ℕ → List DiarizationSpan → Bool
says who t spans = any (λ s. holds_at t s && who s.speaker_id) spans

-- What the constructor establishes of the times.
abbrev pub IsTimed : DiarizationSpan → Type 0
IsTimed s = (s.start_us < s.end_us) × (s.end_us ≤ max_time_us)

-- A well-timed span that is not labelled as overlap is always accepted.
pub diarization_span-accepts :
    (id : String) (a b : ℕ) (who : Speaker) (status : String) (evidence reasons : List String)
    → a < b
    → b ≤ max_time_us
    → ((who ≡ unknown) ⊎ (who ≡ speaker_00) ⊎ (who ≡ speaker_01))
    → diarization_span id a b who status evidence reasons
      ≡ ok (record {
        span_id = id;
        start_us = a;
        end_us = b;
        speaker_id = who;
        attribution_status = status;
        evidence_ids = evidence;
        reason_codes = reasons;
      })
unfolding diarization_span
diarization_span-accepts id a b who status evidence reasons lt le known =
    ground (arith, (range_iff (pos a) (pos b) a b).1)

pub says-cong :
    (p q : Speaker → Bool) (t : ℕ) (spans : List DiarizationSpan)
    → ((l : Speaker) → p l ≡ q l)
    → says p t spans ≡ says q t spans
says-cong p q t [] h = refl
says-cong p q t (s ∷ spans) h = rw (h s.speaker_id, says-cong p q t spans h) refl

pub says-and :
    (p : Speaker → Bool) (b : Bool) (t : ℕ) (spans : List DiarizationSpan)
    → says (λ l. p l && b) t spans ≡ (says p t spans && b)
says-and p b t [] = refl
says-and p b t (s ∷ spans) = rw (says-and p b t spans) (ground arith)

speaker_of : ℕ → Speaker
speaker_of n =
    if n == 0
    then speaker_00
    else if n == 1
    then speaker_01
    else if n == 2
    then unknown
    else if n == 3
    then overlap
    else if n == 4
    then other
    else if n == 5
    then non_speech
    else unsupported

speaker_of-code : (a : Speaker) → speaker_of (speaker_code a) ≡ a
unfolding speaker_of
speaker_of-code speaker_00 = refl
speaker_of-code speaker_01 = refl
speaker_of-code unknown = refl
speaker_of-code overlap = refl
speaker_of-code other = refl
speaker_of-code non_speech = refl
speaker_of-code unsupported = refl

pub same_speaker-eq : (a b : Speaker) → same_speaker a b ≡ true → a ≡ b
same_speaker-eq a b h =
    let codes : speaker_code a ≡ speaker_code b = ground arith in
    sym (speaker_of-code a) ∙ ap speaker_of codes ∙ speaker_of-code b

pub says_mono :
    (p q : Speaker → Bool) (t : ℕ) (spans : List DiarizationSpan)
    → ((l : Speaker) → p l ≡ true → q l ≡ true)
    → says p t spans ≡ true
    → says q t spans ≡ true
says_mono p q t [] h k = ground arith
says_mono p q t (s ∷ spans) h k = ground (arith, h s.speaker_id, says_mono p q t spans h)

pub same_speaker_refl : (a : Speaker) → same_speaker a a ≡ true
same_speaker_refl a = ground arith
