-- ===== src/Js.antt =====
-- The values of JavaScript that the console's code computes with.
mod Value
mod Object
mod Error
mod Print
mod Arrays
mod Number
pub mod Text
pub mod Stateful
unfoldable pub use Value.*
unfoldable pub use Object.*
unfoldable pub use Error.*
unfoldable pub use Print.*
unfoldable pub use Arrays.*
unfoldable pub use Number.*
