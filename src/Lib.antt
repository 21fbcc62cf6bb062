-- ===== src/Lib.antt =====
-- sddiar is an offline diarization library for one or two speakers, in Python (sddiar/*.py under
-- the source folder src of the repository). This development models its integer and decision
-- logic: the layers below and above the neural models, not the models themselves.
--
-- Parts, in the order in which audio passes through them:
--   Contracts      src/sddiar/contracts.py: the checks of int64 microsecond times and ranges.
--   Timewarp       src/sddiar/contracts.py, src/sddiar/timebase.py: view samples to source time.
--   TemporalVad    src/sddiar/silero_temporal.py: VAD frames to core and padded speech regions.
--   SpeechMask     src/sddiar/segmentation.py: clipping and joining of a speech mask.
--   Scoring        src/sddiar/evaluation.py: scoring regions, collar, boundary scores.
--   DiarizationError src/sddiar/evaluation.py: the error components of the cells of a timeline,
--                  the mapping of speaker labels, and (Speakers) the scores of speakers and overlaps.
--   TimelineCells  src/sddiar/evaluation.py: the cells of a timeline, and the mapping on them.
--   RecordingScore src/sddiar/evaluation.py: `score_recording`, from all of these: RecordingScore.Score
--                  is the function, RecordingScore.Changes the derived speaker changes, and
--                  RecordingScore.Aggregate `aggregate_recording_scores`, the score of a corpus.
--   WordScores     src/sddiar/evaluation.py: the scores of words and of short turns.
--   Spans          src/sddiar/contracts.py: speaker labels and diarization spans.
--   Correction     src/sddiar/correction.py: confirmed speaker labels for a session.
--   Attribution    src/sddiar/attribution.py: the speaker of a word, from the spans that it meets.
--   Quality        src/sddiar/quality.py, and the verified binding of src/sddiar/calibration.py.
--   Summary        src/sddiar/service.py: which kind of summary a quality report allows.
--   Jobs           src/sddiar/worker.py: submission and runs of local jobs; the key of a submission
--                  is `idempotency_key` of src/sddiar/service.py.
--   EditDistance   src/sddiar/stt_evaluation.py: the edit distance of two texts.
-- and the reference core of src/sddiar/diarization.py, with its contracts in src/sddiar/contracts.py:
--   Tracklets      `build_tracklets`: speech regions cut into tracklets.
--   Hypotheses     anchors, the fits of one and two clusters, `evaluate_hypotheses` and the states
--                  of the speakers; its vectors are in Assignment.Vectors.
--   Assignment     `local_assignment`, its gates, and the recent centroids.
--   Decoder        `decode_sequence`: Decoder holds the search and the smoothing,
--                  Decoder.Timeline `_materialize`, Decoder.Sequence the whole.
--   Floats         the operations on floats that these four, DiarizationError.Speakers and
--                  RecordingScore use.
-- Intervals holds what SpeechMask and Scoring share: half-open intervals, the set of instants
-- that a list of them covers, and the joining loop. Base passes library names on and adds tests,
-- lists, exceptions (Base.Raise), a stable sort (Python's `sorted`) and signed integers.
-- Correction and Attribution work on the spans of Spans, and Summary on the reports of Quality.
--
-- How the model corresponds to the code. A Python exception is the `err` of a `Result`, with a
-- constructor for each class that these modules raise. A Python integer is a `ℤ` where the code
-- still has to check it, and a natural number behind the check. A function's loop is a recursion of
-- its own on the list that it walks; a list that the loop appends to and reads at its end is kept
-- newest first. Every loop is structural recursion but `artificial_cuts` of Tracklets.Build, whose
-- fuel is the length of the region: each round moves on by a positive step. The diarization core
-- computes with the floats of a parameter, a record of operations `Floats`; `IsOrdered` says of
-- them what holds without a NaN, and `IsExact` of RecordingScore.Aggregate.WordInputs that a ratio
-- of integers up to 2 ** 50, multiplied back and rounded, is exact. Elsewhere a float appears only
-- where the code compares it: it is then written as its exact multiple of the smallest double.
-- `type(x) is not int` tests on values that the model types as numbers are left out.
--
-- Arguments that stand for code outside the repository's sources, or for Python's own: the
-- reevaluation callback of Correction, which its caller gives; `lower` of Quality and Jobs, which
-- is `str.lower`; in Jobs the handler, the attempt to publish a result, and the digest of a
-- submission, which is a SHA-256 of a JSON text; in Attribution the division and the addition of
-- floats; in DiarizationError and WordScores `quotient`, the division of two integers to a float;
-- in WordScores, TimelineCells and RecordingScore `upper` and `is_space`, which are `str.upper` and
-- `str.isspace`; in RecordingScore.Aggregate `round`, which is Python's; and in the diarization
-- core the float operations and `stable_id`, which hashes its parts.
--
-- Not modelled: the ONNX runtimes and their numpy code, audio decoding, files, hashes, JSON,
-- signatures, subprocesses and the command line.
pub mod Base
pub mod Contracts
pub mod Intervals
pub mod Timewarp
pub mod TemporalVad
pub mod SpeechMask
pub mod Scoring
pub mod Spans
pub mod Correction
pub mod Quality
pub mod Summary
pub mod Jobs
pub mod Attribution
pub mod EditDistance
pub mod DiarizationError
pub mod WordScores
pub mod TimelineCells
pub mod RecordingScore
pub mod Floats
pub mod Tracklets
pub mod Hypotheses
pub mod Assignment
pub mod Decoder
