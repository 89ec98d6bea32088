-- ===== src/Producer.antt =====
-- internal/producer: the client that reads a CSV file and streams its rows to the broker.
pub mod Labels
pub mod CsvReader
pub mod Transformer
pub mod Stream
pub mod Process
pub mod Mocks
