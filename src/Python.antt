-- ===== src/Python.antt =====
-- What the services use of Python's standard library: text operations, decimal numbers, the value
-- that json.loads returns, the bounds of pydantic fields.
pub mod Text
pub mod Json
pub mod Attempt
pub mod Fields
