-- ===== src/Plugin/Property/Value.antt =====
-- plugin/Line6HAL.c: what GetPropertyData writes, as values, and how many bytes each takes.
use Prim.Native.String.{String}
use line6_coreaudio.Prelude.{ℕ, ◌+◌, ◌*◌, List, length}
use line6_coreaudio.Shm.{sample_rate_hz}
use line6_coreaudio.CoreAudio.{CoreAudio}
use line6_coreaudio.Plugin.{bytes_per_sample}

pub data ObjectClass : Type 0 where
  object_class plug_in_class device_class stream_class : ObjectClass

-- A CFStringRef: a constant of the source, or an object of the name cache.
pub data StringRef : Type 0 where
  literal : String → StringRef
  created : ℕ → StringRef

-- AudioStreamBasicDescription. A rate is a whole number of Hz.
pub record Format (ca : CoreAudio) : Type 0 where
  pub sample_rate : ℕ
  pub format_id : ℕ
  pub format_flags : ℕ
  pub bytes_per_packet : ℕ
  pub frames_per_packet : ℕ
  pub bytes_per_frame : ℕ
  pub channels_per_frame : ℕ
  pub bits_per_channel : ℕ

-- AudioBuffer, with its data pointer NULL.
pub record Buffer : Type 0 where
  pub number_channels : ℕ
  pub data_byte_size : ℕ

module _ (ca : CoreAudio) where
  open ca use {
    class_id, object_id, string_ref, uint32, float64, value_range, basic_description,
    ranged_description, buffer, buffers_offset, linear_pcm, float_packed,
  }

  -- FillASBD
  unfoldable pub fill_asbd : ℕ → Format ca
  fill_asbd channels = record {
    sample_rate = sample_rate_hz;
    format_id = linear_pcm;
    format_flags = float_packed;
    bytes_per_packet = channels * bytes_per_sample;
    frames_per_packet = 1;
    bytes_per_frame = channels * bytes_per_sample;
    channels_per_frame = channels;
    bits_per_channel = 32;
  }

  pub data Value : Type 0 where
    class_of : ObjectClass → Value
    object : ℕ → Value
    objects : List ℕ → Value
    string : StringRef → Value
    number : ℕ → Value
    two_numbers : ℕ → ℕ → Value
    rate : ℕ → Value
    rate_range : ℕ → ℕ → Value
    buffers : List Buffer → Value
    format : Format ca → Value
    ranged_format : Format ca → ℕ → ℕ → Value

  -- The bytes that a value takes in the caller's buffer.
  unfoldable pub bytes : Value → ℕ
  bytes (class_of c) = class_id
  bytes (object o) = object_id
  bytes (objects os) = length os * object_id
  bytes (string s) = string_ref
  bytes (number n) = uint32
  bytes (two_numbers n m) = 2 * uint32
  bytes (rate r) = float64
  bytes (rate_range r s) = value_range
  bytes (buffers bs) = buffers_offset + length bs * buffer
  bytes (format f) = basic_description
  bytes (ranged_format f r s) = ranged_description
