-- ===== src/CoreAudio.antt =====
-- Sizes and values that CoreAudio's headers give to the types and constants that
-- plugin/Line6HAL.c names; the headers are no code of the repository.
use line6_coreaudio.Prelude.{ℕ}

pub record CoreAudio : Type 0 where
  -- sizeof AudioClassID, AudioObjectID, CFStringRef, UInt32, Float64, AudioValueRange,
  -- AudioStreamBasicDescription, AudioStreamRangedDescription, AudioBuffer, and the offset of
  -- mBuffers in AudioBufferList
  pub class_id : ℕ
  pub object_id : ℕ
  pub string_ref : ℕ
  pub uint32 : ℕ
  pub float64 : ℕ
  pub value_range : ℕ
  pub basic_description : ℕ
  pub ranged_description : ℕ
  pub buffer : ℕ
  pub buffers_offset : ℕ
  -- kAudioObjectUnknown, kAudioDeviceTransportTypeUSB, kAudioStreamTerminalTypeUnknown,
  -- kAudioFormatLinearPCM, and kAudioFormatFlagIsFloat | kAudioFormatFlagIsPacked
  pub object_unknown : ℕ
  pub transport_usb : ℕ
  pub terminal_unknown : ℕ
  pub linear_pcm : ℕ
  pub float_packed : ℕ
