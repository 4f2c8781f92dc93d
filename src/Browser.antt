-- ===== src/Browser.antt =====
-- What the elements use of the browser's timers. `setTimeout` and `setInterval` give a new number to
-- a callback, which is live until it is cleared or, for a timeout, fires; clearing a number that is
-- not live does nothing. The order in which live timers fire is left to whoever fires them.
pub mod Timers
