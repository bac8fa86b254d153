-- ===== src/Chat.antt =====
-- web/src/components/ChatView.jsx: the state of an open chat, in one child module per part of it.
pub mod Reactions
pub mod Typing
pub mod Messages
