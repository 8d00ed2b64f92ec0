-- ===== src/Store.antt =====
-- internal/store: the JSON backed collections of records, and the rolling time series.
pub mod Collection
pub mod Series
