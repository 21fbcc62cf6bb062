-- ===== src/TemporalVad.antt =====
-- src/sddiar/silero_temporal.py: the temporal decoder behind Silero VAD frames. A probability is
-- compared and never computed with; it is written as its multiple of 2^-1074, the spacing of the
-- smallest doubles, which is exact for every double in [0, 1].
mod Decoder
mod Regions
pub mod Core
pub mod MaxSpeech
pub mod Padding
pub mod Marks
mod Tests
pub use Decoder.{VadFrame, TemporalVadConfig, State, Frame, idle}
unfoldable pub use Decoder.{validated_frames, emit, step, decode, core_regions}
pub use Regions.{SpeechRegion, core_of, MarkedVadFrame}
unfoldable pub use Regions.{
  speech_region, pad_from, padded_regions, regions, mark_pieces, mark_frame, mark_vad_frames,
  core_duration_us, halo_duration_us,
}
