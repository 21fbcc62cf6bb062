-- ===== src/Correction/Pieces.antt =====
-- How one correction replaces one span: the three pieces and the instants that they hold.
use sddiar.Base.{
  ℕ, ◌≤◌, ◌<◌, ◌≡◌, refl, ap, ◌∙◌, ◌⊎◌, inl, inr, Bool, true, false, not, ◌&&◌, ◌||◌, List, [], ◌∷◌,
  ◌++◌, ok, ◌>>=◌, arith, if◌then◌else◌, any-append, ltb, ltb→lt, All, All-append, Bool-cases,
}
use sddiar.Base.Int.{ℤ, pos, negsuc, pos_part, leb_ℤ, ltb_ℤ, max_ℤ, min_ℤ}
use Prim.Native.String.{String, ◌++◌ as ◌<>◌}
use sddiar.Intervals.{within}
use sddiar.Contracts.{max_time_us}
use sddiar.Spans.{
  Speaker, speaker_00, speaker_01, unknown, overlap, other, non_speech, unsupported, same_speaker,
  DiarizationSpan, diarization_span,
}
use sddiar.Spans.Labels.{holds_at, says, IsTimed, diarization_span-accepts}
use sddiar.Correction.{
  HumanSpeakerCorrection, overlap_test, affects, first_us, last_us, before_piece, human_piece,
  after_piece, pieces_of, replace_span, is_unknown,
}

-- The instants of the reviewer's range.
abbrev pub confirms : ℕ → HumanSpeakerCorrection → Bool
confirms t c = leb_ℤ c.source_start_us (pos t) && ltb_ℤ (pos t) c.source_end_us

abbrev pub relabel : ℕ → HumanSpeakerCorrection → Speaker → Speaker
relabel t c label =
    if same_speaker label unknown && confirms t c then c.confirmed_speaker_id else label

-- What the constructor establishes of the confirmed speaker.
abbrev pub IsSession : HumanSpeakerCorrection → Type 0
IsSession c = (c.confirmed_speaker_id ≡ speaker_00) ⊎ (c.confirmed_speaker_id ≡ speaker_01)

-- The three cut points of an affected span are in order.
overlap_test-bounds :
    (a b : ℕ) (x y : ℤ)
    → overlap_test (pos a) (pos b) x y ≡ true
    → (a ≤ pos_part (max_ℤ (pos a) x))
      × (pos_part (max_ℤ (pos a) x) < pos_part (min_ℤ (pos b) y))
      × (pos_part (min_ℤ (pos b) y) ≤ b)
overlap_test-bounds a b (pos x) (pos y) h = ground arith
overlap_test-bounds a b (pos x) (negsuc y) h = ground arith
overlap_test-bounds a b (negsuc x) (pos y) h = ground arith
overlap_test-bounds a b (negsuc x) (negsuc y) h = ground arith

-- Inside an affected span, the reviewer's range is the confirmed piece.
overlap_test-within :
    (a b t : ℕ) (x y : ℤ)
    → overlap_test (pos a) (pos b) x y ≡ true
    → within t (a, b) ≡ true
    → (leb_ℤ x (pos t) && ltb_ℤ (pos t) y)
      ≡ within t (pos_part (max_ℤ (pos a) x), pos_part (min_ℤ (pos b) y))
overlap_test-within a b t (pos x) (pos y) h k = ground arith
overlap_test-within a b t (pos x) (negsuc y) h k = ground arith
overlap_test-within a b t (negsuc x) (pos y) h k = ground arith
overlap_test-within a b t (negsuc x) (negsuc y) h k = ground arith

-- Outside the overlap, no instant is in both ranges.
overlap_test-outside :
    (a b t : ℕ) (x y : ℤ)
    → overlap_test (pos a) (pos b) x y ≡ false
    → within t (a, b) ≡ true
    → (leb_ℤ x (pos t) && ltb_ℤ (pos t) y) ≡ false
overlap_test-outside a b t (pos x) (pos y) h k = ground arith
overlap_test-outside a b t (pos x) (negsuc y) h k = ground arith
overlap_test-outside a b t (negsuc x) (pos y) h k = ground arith
overlap_test-outside a b t (negsuc x) (negsuc y) h k = ground arith

-- A rest of an UNKNOWN span, if it is not empty.
rest-says :
    (id : String) (a b : ℕ) (status : String) (evidence reasons : List String)
    → a ≤ b
    → b ≤ max_time_us
    → (out : List DiarizationSpan) × ((if ltb a b
          then (diarization_span id a b unknown status evidence reasons >>= λ p. ok (p ∷ []))
          else ok [])
        ≡ ok out)
      × All IsTimed out
      × ((who : Speaker → Bool) (t : ℕ) → says who t out ≡ (within t (a, b) && who unknown))
rest-says id a b status evidence reasons le top = elim (Bool-cases (ltb a b)) [
  | inl some_rest ↦
      rw
        (
          some_rest,
          diarization_span-accepts id a b unknown status evidence reasons (ltb→lt a b some_rest) top
              (inl refl),
        )
        (_, refl, ((ltb→lt a b some_rest, top), tt), λ who t. ground arith)
  | inr no_rest ↦ rw no_rest ([], refl, tt, λ who t. ground arith)
]

human_piece-says :
    (c : HumanSpeakerCorrection) (s : DiarizationSpan)
    → IsSession c
    → first_us c s < last_us c s
    → last_us c s ≤ max_time_us
    → (out : DiarizationSpan) × (human_piece c s ≡ ok out)
      × IsTimed out
      × ((who : Speaker → Bool) (t : ℕ)
          → (holds_at t out && who out.speaker_id)
            ≡ (within t (first_us c s, last_us c s) && who c.confirmed_speaker_id))
unfolding human_piece
human_piece-says c s known lt top =
    rw
      (diarization_span-accepts _ (first_us c s) (last_us c s) c.confirmed_speaker_id _ _ _ lt top
        (inr known))
      (_, refl, (lt, top), λ who t. refl)

-- The three pieces of an UNKNOWN span.
pieces_of-says :
    (c : HumanSpeakerCorrection) (s : DiarizationSpan)
    → IsSession c
    → (s.start_us ≤ first_us c s) × (first_us c s < last_us c s) × (last_us c s ≤ s.end_us)
    → s.end_us ≤ max_time_us
    → (out : List DiarizationSpan) × (pieces_of c s ≡ ok out)
      × All IsTimed out
      × ((who : Speaker → Bool) (t : ℕ)
          → says who t out ≡ (
              (within t (s.start_us, first_us c s) && who unknown)
              || ((within t (first_us c s, last_us c s) && who c.confirmed_speaker_id)
                  || (within t (last_us c s, s.end_us) && who unknown))))
unfolding pieces_of before_piece after_piece
pieces_of-says c s known cuts top =
    let (b, eb, tb, sb) =
      rest-says (s.span_id <> ":before") s.start_us (first_us c s) s.attribution_status
        s.evidence_ids s.reason_codes cuts.0 (omega (arith, cuts, top)) in
    let (h, eh, th, sh) = human_piece-says c s known cuts.1 (omega (arith, cuts, top)) in
    let (a, ea, ta, sa) =
      rest-says (s.span_id <> ":after") (last_us c s) s.end_us s.attribution_status s.evidence_ids
        s.reason_codes cuts.2 top in
    rw (eb, eh, ea)
      (
        b ++ h ∷ a,
        refl,
        All-append IsTimed b (h ∷ a) tb (th, ta),
        λ who t.
            rw
              (
                any-append (λ x. holds_at t x && who x.speaker_id) b (h ∷ a),
                sb who t,
                sh who t,
                sa who t,
              )
              refl,
      )

-- An instant of an affected UNKNOWN span is in exactly one piece.
cut_label :
    (who : Bool) (person : Bool) (t a f l e : ℕ) (inside : Bool)
    → (a ≤ f) × (f < l) × (l ≤ e)
    → ((within t (a, e) ≡ true) → inside ≡ within t (f, l))
    → ((within t (a, f) && who) || ((within t (f, l) && person) || (within t (l, e) && who)))
      ≡ (within t (a, e) && (if inside then person else who))
cut_label who person t a f l e inside cuts h = elim (Bool-cases (within t (a, e))) [
  | inl held ↦ ground (arith, h held)
  | inr out ↦ ground arith
]

if-apply :
    (who : Speaker → Bool) (test : Bool) (x y : Speaker)
    → (if test then who x else who y) ≡ who (if test then x else y)
if-apply who true x y = refl
if-apply who false x y = refl

relabel-unknown :
    (who : Speaker → Bool) (t : ℕ) (c : HumanSpeakerCorrection) (label : Speaker)
    → same_speaker label unknown ≡ true
    → (if confirms t c then who c.confirmed_speaker_id else who unknown) ≡ who (relabel t c label)
relabel-unknown who t c unknown h = if-apply who (confirms t c) c.confirmed_speaker_id unknown
relabel-unknown who t c speaker_00 h = ground arith
relabel-unknown who t c speaker_01 h = ground arith
relabel-unknown who t c overlap h = ground arith
relabel-unknown who t c other h = ground arith
relabel-unknown who t c non_speech h = ground arith
relabel-unknown who t c unsupported h = ground arith

relabel-outside :
    (who : Speaker → Bool) (t : ℕ) (c : HumanSpeakerCorrection) (s : DiarizationSpan)
    → affects c s ≡ false
    → (holds_at t s && who s.speaker_id) ≡ (holds_at t s && who (relabel t c s.speaker_id))
relabel-outside who t c s h = elim (Bool-cases (holds_at t s)) [
  | inl held ↦
      ground
        (arith, overlap_test-outside s.start_us s.end_us t c.source_start_us c.source_end_us h held)
  | inr out ↦ ground arith
]

is_unknown-affected : (hit free : Bool) → hit ≡ true → (hit && not free) ≡ false → free ≡ true
is_unknown-affected hit free h k = ground arith

or-false : (b : Bool) → (b || false) ≡ b
or-false b = ground arith

pub or-false_parts : (a b : Bool) → (a || b) ≡ false → (a ≡ false) × (b ≡ false)
or-false_parts true b h = ground arith
or-false_parts false b h = (refl, h)

-- A span that the correction may touch is replaced without failure.
pub replace_span-says :
    (c : HumanSpeakerCorrection) (s : DiarizationSpan)
    → IsSession c
    → IsTimed s
    → (affects c s && not (is_unknown s)) ≡ false
    → (out : List DiarizationSpan) × (replace_span c s ≡ ok out)
      × All IsTimed out
      × ((who : Speaker → Bool) (t : ℕ)
          → says who t out ≡ (holds_at t s && who (relabel t c s.speaker_id)))
unfolding replace_span
replace_span-says c s known timed free = elim (Bool-cases (affects c s)) [
  | inl hit ↦
      let cuts = overlap_test-bounds s.start_us s.end_us c.source_start_us c.source_end_us hit in
      let (out, e, good, what) = pieces_of-says c s known cuts timed.1 in
      rw hit (
        out,
        e,
        good,
        λ who t.
            what who t
            ∙ cut_label (who unknown) (who c.confirmed_speaker_id) t s.start_us (first_us c s)
                (last_us c s) s.end_us (confirms t c) cuts
                (λ held.
                  overlap_test-within s.start_us s.end_us t c.source_start_us c.source_end_us hit
                    held)
            ∙ ap (λ b. holds_at t s && b)
                (relabel-unknown who t c s.speaker_id
                  (is_unknown-affected (affects c s) (is_unknown s) hit free)),
      )
  | inr miss ↦ rw miss (
    s ∷ [],
    refl,
    (timed, tt),
    λ who t. or-false (holds_at t s && who s.speaker_id) ∙ relabel-outside who t c s miss,
  )
]
