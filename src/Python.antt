-- ===== src/Python.antt =====
-- The part of Python that the program computes with: exceptions as values, and the dynamic values
-- that `json.loads` produces. A `Block` (types.py) that comes from a peer or a file is such a dict:
-- none of its fields need be present or have the declared type.
mod Errors
pub mod Value
pub mod Fields
unfoldable pub use Errors.*
