-- ===== src/Receivers.antt =====
-- internal/ingest: the receivers, which read a request's body as events in a form of their own.
-- What they refuse is a value of Refusal; an event that a receiver passes over is `none`.
pub mod Json
pub mod Mask
pub mod Settled
pub mod Cases
pub mod Rows
pub mod Bodies
pub mod OpcuaDmz
pub mod Vault
pub mod Jumphost
pub mod Syslog
pub mod Ids
pub mod Gds
pub mod Validated

pub data Refusal : Type 0 where
  empty_body not_json too_long no_events suppressed : Refusal

pub data Reading {ℓ} (A : Type ℓ) : Type ℓ where
  read : A → Reading A
  refused : Refusal → Reading A
