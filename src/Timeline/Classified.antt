-- ===== src/Timeline/Classified.antt =====
-- The types of events of pkg/timeline/classifier.go, and the interface `TimelineEvent`.
use go_temporal_timeline.Prelude.{String}
use go_temporal_timeline.GoTime.{Time}
use go_temporal_timeline.GoFloat.{Float64}
use go_temporal_timeline.GoValue.{Fields}
use go_temporal_timeline.Timeline.Types.{Event}

pub record PlayEvent : Type 0 where
  pub timestamp : Time
  pub video_id : String
  pub cdn : String
  pub device_type : String
  pub attributes : Fields

pub record SeekEvent : Type 0 where
  pub timestamp : Time
  pub seek_from_time : Float64
  pub seek_to_time : Float64
  pub video_id : String
  pub attributes : Fields

pub record RebufferEvent : Type 0 where
  pub timestamp : Time
  pub buffer_duration : Float64
  pub cdn : String
  pub device_type : String
  pub video_id : String
  pub attributes : Fields

pub record GenericEvent : Type 0 where
  pub timestamp : Time
  pub event_type : String
  pub attributes : Fields

-- The types that implement the interface.
pub data TimelineEvent : Type 0 where
  basic : Event → TimelineEvent
  play : PlayEvent → TimelineEvent
  seek : SeekEvent → TimelineEvent
  rebuffer : RebufferEvent → TimelineEvent
  generic : GenericEvent → TimelineEvent

abbrev pub get_type : TimelineEvent → String
get_type (basic e) = e.type
get_type (play e) = "play"
get_type (seek e) = "seek"
get_type (rebuffer e) = "rebuffer"
get_type (generic e) = e.event_type

abbrev pub get_timestamp : TimelineEvent → Time
get_timestamp (basic e) = e.timestamp
get_timestamp (play e) = e.timestamp
get_timestamp (seek e) = e.timestamp
get_timestamp (rebuffer e) = e.timestamp
get_timestamp (generic e) = e.timestamp

abbrev pub get_attributes : TimelineEvent → Fields
get_attributes (basic e) = e.attrs
get_attributes (play e) = e.attributes
get_attributes (seek e) = e.attributes
get_attributes (rebuffer e) = e.attributes
get_attributes (generic e) = e.attributes
