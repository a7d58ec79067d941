-- ===== src/Bson.antt =====
-- Package internal/bson: values from and to the bytes of the wire protocol.
pub mod Scalar
pub mod Marshal
pub mod Read
pub mod Canon
pub mod Fits
pub mod ScalarLaws
pub mod Elements
pub mod RoundTrip
pub mod MarshalLaws
pub mod Indexes
pub mod ScalarSound
pub mod Calm
pub mod ElementsSound
pub mod Sound
